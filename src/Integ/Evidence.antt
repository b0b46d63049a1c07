-- ===== src/Integ/Evidence.antt =====
-- What an exit code 0 of scripts/verify-integ.ts says about its run.
use mathlib.Core.Path.{subst}
use cdk_log_to_s.Prelude.{
  ◌++◌, Text, Bool, true, false, List, [], ◌∷◌, Option, Result, ok, throws, ◌≡◌, ◌≢◌, refl, ap, ◌∙◌,
}
use cdk_log_to_s.Integ.Script.{
  Outcome, returned, thrown, exited, unfinished, State, Script, proceed, pure, throw, print,
  push_failure, check, ◌>>=◌,
}
use cdk_log_to_s.Integ.Services.{Services, Run}
use cdk_log_to_s.Integ.Sections.{tested}
use cdk_log_to_s.Integ.Settles.{Extends, Settles}

pub Extends-nil : (f g : List Text) → Extends f g → g ≡ [] → f ≡ []
Extends-nil [] g h e = refl
Extends-nil (x ∷ f) g (more, k) e = cc

module _ {W : Type 0} {A B : Type 0} where
  -- A block that returned, step by step.
  pub proceed-returned :
      (o : Outcome A) (u : State W) (next : A → Script W B) (b : B) (t : State W)
      → proceed o next u ≡ (returned b, t)
      → (a : A) × (o ≡ returned a) × (next a u ≡ (returned b, t))
  proceed-returned (returned a) u next b t h = (a, refl, h)
  proceed-returned (thrown e) u next b t h = cc
  proceed-returned (exited n) u next b t h = cc
  proceed-returned unfinished u next b t h = cc

module _ (services : Services) where
  -- If a run returns, without a failed check at its end, its value is such.
  pub record Assures {A : Type 0} (m : Run services A) (P : A → Type 0) : Type 0 where
    pub at :
        (s : State services.World) (a : A) (t : State services.World)
        → m s ≡ (returned a, t)
        → t.failures ≡ []
        → P a

  module _ {A B : Type 0} {Q : B → Type 0} where
    -- What is known of the value of `m` is passed on.
    pub Assures-bind :
        (m : Run services A) (next : A → Run services B) (P : A → Type 0)
        → Assures m P
        → ((a : A) → Settles services (next a))
        → ((a : A) → P a → Assures (next a) Q)
        → Assures (m >>= next) Q
    unfolding ◌>>=◌
    Assures-bind m next P km settles kn = record {
      at = λ s b t h e.
          let (a, k, rest) = proceed-returned (m s).0 (m s).1 next b t h in
          let more : Extends (m s).1.failures (next a (m s).1).1.failures =
            ((settles a).at (m s).1).later.failures in
          let none_before : (m s).1.failures ≡ [] =
            Extends-nil (m s).1.failures (next a (m s).1).1.failures more
              (ap (λ r. r.1.failures) rest ∙ e) in
          (kn a (km.at s a (m s).1 (ap (λ o. (o, (m s).1)) k) none_before)).at (m s).1 b t rest e;
    }

    pub Assures-then :
        (m : Run services A) (next : A → Run services B)
        → ((a : A) → Assures (next a) Q)
        → Assures (m >>= next) Q
    unfolding ◌>>=◌
    Assures-then m next kn = record {
      at = λ s b t h e.
          let (a, k, rest) = proceed-returned (m s).0 (m s).1 next b t h in
          (kn a).at (m s).1 b t rest e;
    }

  module _ {A : Type 0} {P : A → Type 0} where
    pub Assures-pure : (a : A) → P a → Assures (pure a) P
    unfolding pure
    Assures-pure a p = record { at = λ s b t h e. let same : a ≡ b = cc h in subst P same p }

  pub Assures-tested : (r : Result Bool) → Assures (tested services r) (λ b. r ≡ ok b)
  unfolding tested pure throw
  Assures-tested (ok b) = record { at = λ s c t h e. cc h }
  Assures-tested (throws message) = record { at = λ s c t h e. cc h }

  not_nil : (f : List Text) (d : Text) → f ++ d ∷ [] ≢ []
  not_nil [] d h = cc h
  not_nil (x ∷ f) d h = cc h

  pub Assures-check :
      (b : Bool) (d : Text) (detail : Option Text) → Assures (check b d detail) (λ _. b ≡ true)
  unfolding check print push_failure ◌>>=◌
  Assures-check true d detail = record { at = λ s c t h e. refl }
  Assures-check false d detail = record {
    at = λ s c t h e. absurd (not_nil s.failures d (ap (λ r. r.1.failures) h ∙ e));
  }

  -- A check at the end, a check before more, a test before more.
  pub Assures-last :
      {Q : Unit {0} → Type 0} (b : Bool) (d : Text) (detail : Option Text)
      → (b ≡ true → Q tt)
      → Assures (check b d detail) Q
  Assures-last b d detail k = record {
    at = λ s c t h e. k ((Assures-check b d detail).at s c t h e);
  }

  module _ {B : Type 0} {Q : B → Type 0} where
    pub Assures-checked :
        (b : Bool) (d : Text) (detail : Option Text) (next : Unit {0} → Run services B)
        → Settles services (next tt)
        → (b ≡ true → Assures (next tt) Q)
        → Assures (check b d detail >>= next) Q
    Assures-checked b d detail next settles k =
        Assures-bind (check b d detail) next (λ _. b ≡ true) (Assures-check b d detail)
          (λ _. settles) (λ _. k)

    pub Assures-tried :
        (r : Result Bool) (next : Bool → Run services B)
        → ((b : Bool) → Settles services (next b))
        → ((b : Bool) → r ≡ ok b → Assures (next b) Q)
        → Assures (tested services r >>= next) Q
    Assures-tried r next settles k =
        Assures-bind (tested services r) next (λ b. r ≡ ok b) (Assures-tested r) settles k
