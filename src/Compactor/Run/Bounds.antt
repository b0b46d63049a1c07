-- ===== src/Compactor/Run/Bounds.antt =====
-- How much one run merges.
use cdk_log_to_s.Prelude.{
  ℕ, ◌+◌, ◌≤◌, ◌<◌, ◌&&◌, leb, ltb, List, [], ◌∷◌, length, ◌≡◌, refl, arith, Bool-cases, ◌⊎◌, inl,
  inr,
}
use cdk_log_to_s.Compactor.{Config, Object, capped, candidates, sort, select_sources, text_lt}
use cdk_log_to_s.Compactor.Run.{total_size}

length-capped :
    (cfg : Config) (n bytes : ℕ) (l : List Object)
    → n ≤ cfg.max_files
    → n + length (capped cfg n bytes l) ≤ cfg.max_files
unfolding capped
length-capped cfg n bytes [] h = omega (arith, h)
length-capped cfg n bytes (o ∷ l) h = elim (Bool-cases (leb cfg.max_files n)) [
  | inl t ↦ rw t (omega (arith, h))
  | inr f ↦ elim (Bool-cases (ltb 0 n && ltb cfg.max_bytes (bytes + o.size))) [
    | inl t ↦ rw (f, t) (omega (arith, h))
    | inr g ↦
        rw (f, g) (omega (arith, length-capped cfg (n + 1) (bytes + o.size) l (ground (arith, f))))
  ]
]

-- Behind the first file, what is taken fits.
total_size-capped :
    (cfg : Config) (n bytes : ℕ) (l : List Object)
    → 0 < n
    → (bytes + total_size (capped cfg n bytes l) ≤ cfg.max_bytes) ⊎ (capped cfg n bytes l ≡ [])
unfolding capped total_size
total_size-capped cfg n bytes [] h = inr refl
total_size-capped cfg n bytes (o ∷ l) h = elim (Bool-cases (leb cfg.max_files n)) [
  | inl t ↦ inr (rw t)
  | inr f ↦ elim (Bool-cases (ltb 0 n && ltb cfg.max_bytes (bytes + o.size))) [
    | inl t ↦ inr (rw (f, t))
    | inr g ↦ inl (
        rw (f, g)
          (elim (total_size-capped cfg (n + 1) (bytes + o.size) l (omega arith)) [
            | inl fits ↦ omega (arith, fits)
            | inr none_left ↦ rw none_left (ground (arith, g, h))
          ]))
  ]
]

total_size-first :
    (cfg : Config) (l : List Object)
    → (total_size (capped cfg 0 0 l) ≤ cfg.max_bytes) ⊎ (length (capped cfg 0 0 l) ≤ 1)
unfolding capped total_size
total_size-first cfg [] = inr (omega arith)
total_size-first cfg (o ∷ l) = elim (Bool-cases (leb cfg.max_files 0)) [
  | inl t ↦ inr (rw t (omega arith))
  | inr f ↦ elim (total_size-capped cfg (0 + 1) (0 + o.size) l (omega arith)) [
    | inl fits ↦ inl (rw f (omega (arith, fits)))
    | inr none_left ↦ inr (rw (f, none_left) (omega arith))
  ]
]

-- One run merges at most `MaxFiles` files, and together they have at most `MaxBytes` bytes or are
-- at most one file.
pub select_sources_bounds :
    (objects : List Object) (cfg : Config)
    → (length (select_sources objects cfg) ≤ cfg.max_files)
      × ((total_size (select_sources objects cfg) ≤ cfg.max_bytes)
          ⊎ (length (select_sources objects cfg) ≤ 1))
unfolding select_sources
select_sources_bounds objects cfg =
    let chosen : List Object = sort (λ a b. text_lt a.key b.key) (candidates objects) in
    (omega (arith, length-capped cfg 0 0 chosen (omega arith)), total_size-first cfg chosen)
