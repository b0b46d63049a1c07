-- ===== src/Logger/Correlation.antt =====
-- packages/logger/src/correlation-id.ts. The stores are objects that the contexts of an
-- `AsyncLocalStorage` share by reference: a context is the place of its store, or none outside
-- every run. Awaits and tasks interleave as a sequence of the calls that they make.
use cdk_log_to_s.Prelude.{
  ℕ, zero, suc, Text, List, [], ◌∷◌, ◌++◌, Option, none, some, length, ◌≡◌, ◌≢◌, refl, ap,
}

abbrev pub Stores : Type 0
Stores = List Text

unfoldable pub store_at : ℕ → Stores → Option Text
store_at i [] = none
store_at zero (id ∷ stores) = some id
store_at (suc i) (id ∷ stores) = store_at i stores

unfoldable pub update : ℕ → Text → Stores → Stores
update i id [] = []
update zero id (old ∷ stores) = id ∷ stores
update (suc i) id (old ∷ stores) = old ∷ update i id stores

-- The context in which the callback runs, and the stores with the new one.
unfoldable pub run_with_correlation_id : Text → Stores → Option ℕ × Stores
run_with_correlation_id id stores = (some (length stores), stores ++ id ∷ [])

unfoldable pub get_correlation_id : Option ℕ → Stores → Option Text
get_correlation_id none stores = none
get_correlation_id (some i) stores = store_at i stores

unfoldable pub set_correlation_id : Option ℕ → Text → Stores → Stores
set_correlation_id none id stores = stores
set_correlation_id (some i) id stores = update i id stores

-- Any sequence of runs, and of calls of `setCorrelationId` in other contexts than this one.
pub data Others (context : Option ℕ) : Stores → Stores → Type 0 where
  done : (s : Stores) → Others context s s
  runs :
      (id : Text) (s s' s'' : Stores)
      → Others context s s'
      → (run_with_correlation_id id s').1 ≡ s''
      → Others context s s''
  sets :
      (other : Option ℕ) (id : Text) (s s' s'' : Stores)
      → other ≢ context
      → Others context s s'
      → set_correlation_id other id s' ≡ s''
      → Others context s s''

store_at-append :
    (i : ℕ) (s : Stores) (id x : Text) → store_at i s ≡ some x → store_at i (s ++ id ∷ []) ≡ some x
unfolding store_at
store_at-append i [] id x h = cc
store_at-append zero (y ∷ s) id x h = h
store_at-append (suc i) (y ∷ s) id x h = store_at-append i s id x h

store_at-last : (s : Stores) (id : Text) → store_at (length s) (s ++ id ∷ []) ≡ some id
unfolding store_at
store_at-last [] id = refl
store_at-last (y ∷ s) id = store_at-last s id

store_at-update :
    (i j : ℕ) (s : Stores) (id : Text) → j ≢ i → store_at i (update j id s) ≡ store_at i s
unfolding store_at update
store_at-update i j [] id h = refl
store_at-update zero zero (y ∷ s) id h = absurd (h refl)
store_at-update zero (suc j) (y ∷ s) id h = refl
store_at-update (suc i) zero (y ∷ s) id h = refl
store_at-update (suc i) (suc j) (y ∷ s) id h = store_at-update i j s id (λ e. h (ap suc e))

get-set_other :
    (context other : Option ℕ) (id : Text) (s : Stores)
    → other ≢ context
    → get_correlation_id context (set_correlation_id other id s) ≡ get_correlation_id context s
unfolding get_correlation_id set_correlation_id
get-set_other none other id s h = refl
get-set_other (some i) none id s h = refl
get-set_other (some i) (some j) id s h = store_at-update i j s id (λ e. h (ap some e))

get-run :
    (context : Option ℕ) (s : Stores) (id x : Text)
    → get_correlation_id context s ≡ some x
    → get_correlation_id context (run_with_correlation_id id s).1 ≡ some x
unfolding get_correlation_id run_with_correlation_id
get-run none s id x h = h
get-run (some i) s id x h = store_at-append i s id x h

Others-get :
    (context : Option ℕ) (s s' : Stores) (x : Text)
    → Others context s s'
    → get_correlation_id context s ≡ some x
    → get_correlation_id context s' ≡ some x
Others-get context _ _ x (done s) h = h
Others-get context s s'' x (runs id _ s' _ r e) h =
    rw (← e) (get-run context s' id x (Others-get context s s' x r h))
Others-get context s s'' x (sets other id _ s' _ ne r e) h =
    rw (← e, get-set_other context other id s' ne) (Others-get context s s' x r h)

module _ (id : Text) (s : Stores) where
  -- After any sequence of further runs, and of calls of `setCorrelationId` in other contexts, the
  -- context of a run still has the correlation id that the run was given.
  pub run-isolated :
      (s' : Stores)
      → Others (run_with_correlation_id id s).0 (run_with_correlation_id id s).1 s'
      → get_correlation_id (run_with_correlation_id id s).0 s' ≡ some id
  run-isolated s' r =
      Others-get _ _ s' id r
        (unfold run_with_correlation_id get_correlation_id in store_at-last s id)
