-- ===== src/Integ/Settles.antt =====
-- What every statement of scripts/verify-integ.ts keeps, one rule for each way to build one.
use cdk_log_to_s.Prelude.{
  ℕ, ◌≤◌, Text, Bool, true, false, List, [], ◌∷◌, ◌++◌, append-nil, append_assoc, Option, Result,
  throws, ok, if◌then◌else◌, ◌≡◌, refl, sym, ap, ◌∙◌, arith,
}
use cdk_log_to_s.Integ.Script.{
  Outcome, returned, thrown, exited, unfinished, State, Line, pure, throw, print, exit,
  push_failure, proceed, ◌>>=◌, check,
}
use cdk_log_to_s.Integ.Services.{Services, Lawful, Run, Request, answered, send, date_now, sleep}
use cdk_log_to_s.Integ.Sections.{tested}

-- The fuel was enough, and an exit is one with code 1.
abbrev pub IsFinal : {A : Type 0} → Outcome A → Type 0
IsFinal (returned a) = Unit
IsFinal (thrown message) = Unit
IsFinal (exited code) = code ≡ 1
IsFinal unfinished = ⊥

-- Failures are only added.
abbrev pub Extends : List Text → List Text → Type 0
Extends earlier later = (more : List Text) × (later ≡ earlier ++ more)

Extends-refl : (f : List Text) → Extends f f
Extends-refl f = ([], sym (append-nil f))

Extends-trans : (f g h : List Text) → Extends f g → Extends g h → Extends f h
Extends-trans f g h (p, e) (q, k) = (p ++ q, k ∙ ap (λ x. x ++ q) e ∙ append_assoc f p q)

module _ (services : Services) where
  -- The clock has not gone back, and no failure is forgotten.
  pub record Later (s t : State services.World) : Type 0 where
    pub clock : services.now s.world ≤ services.now t.world
    pub failures : Extends s.failures t.failures

  pub Later-refl : (s : State services.World) → Later s s
  Later-refl s = record { clock = omega arith; failures = Extends-refl s.failures }

  pub Later-trans : (s t u : State services.World) → Later s t → Later t u → Later s u
  Later-trans s t u a b = record {
    clock = omega (arith, a.clock, b.clock);
    failures = Extends-trans s.failures t.failures u.failures a.failures b.failures;
  }

  -- A statement that came to its end, later.
  pub record Ends {A : Type 0} (s : State services.World) (r : Outcome A × State services.World)
      : Type 0 where
    pub finished : IsFinal r.0
    pub later : Later s r.1

  -- From every state the statement ends, later.
  pub record Settles {A : Type 0} (m : Run services A) : Type 0 where
    pub at : (s : State services.World) → Ends s (m s)

  module _ {A : Type 0} where
    Ends-here : (s : State services.World) (o : Outcome A) → IsFinal o → Ends s (o, s)
    Ends-here s o h = record { finished = h; later = Later-refl s }

    pub Settles-pure : (a : A) → Settles (pure a)
    unfolding pure
    Settles-pure a = record { at = λ s. Ends-here s (returned a) tt }

    pub Settles-throw : (message : Text) → Settles (throw {A = A} message)
    unfolding throw
    Settles-throw message = record { at = λ s. Ends-here s (thrown message) tt }

    pub Settles-if :
        (b : Bool) (m n : Run services A) → Settles m → Settles n → Settles (if b then m else n)
    Settles-if true m n km kn = km
    Settles-if false m n km kn = kn

  module _ {A B : Type 0} where
    -- What follows, from a later state.
    Ends-proceed :
        (s : State services.World) (next : A → Run services B) (o : Outcome A)
        (t : State services.World)
        → Ends s (o, t)
        → ((a : A) → Ends t (next a t))
        → Ends s (proceed o next t)
    Ends-proceed s next (returned a) t h k = record {
      finished = (k a).finished;
      later = Later-trans s t (next a t).1 h.later (k a).later;
    }
    Ends-proceed s next (thrown message) t h k = record { finished = h.finished; later = h.later }
    Ends-proceed s next (exited code) t h k = record { finished = h.finished; later = h.later }
    Ends-proceed s next unfinished t h k = absurd h.finished

    pub Ends-bind :
        (m : Run services A) (next : A → Run services B) (s : State services.World)
        → Ends s (m s)
        → ((a : A) → Ends (m s).1 (next a (m s).1))
        → Ends s ((m >>= next) s)
    unfolding ◌>>=◌
    Ends-bind m next s h k = Ends-proceed s next (m s).0 (m s).1 h k

    pub Settles-bind :
        (m : Run services A) (next : A → Run services B)
        → Settles m
        → ((a : A) → Settles (next a))
        → Settles (m >>= next)
    Settles-bind m next km kn = record {
      at = λ s. Ends-bind m next s (km.at s) (λ a. (kn a).at (m s).1);
    }

  pub Settles-print : (line : Line) → Settles (print line)
  unfolding print
  Settles-print line = record {
    at = λ s. record {
      finished = tt;
      later = record { clock = omega arith; failures = Extends-refl s.failures };
    };
  }

  pub Settles-push : (description : Text) → Settles (push_failure description)
  unfolding push_failure
  Settles-push description = record {
    at = λ s. record {
      finished = tt;
      later = record { clock = omega arith; failures = (description ∷ [], refl) };
    };
  }

  pub Settles-exit : Settles (exit 1)
  unfolding exit
  Settles-exit = record { at = λ s. Ends-here s (exited 1) refl }

  pub Settles-now : Settles (date_now services)
  unfolding date_now
  Settles-now = record { at = λ s. Ends-here s (returned (services.now s.world)) tt }

  pub Settles-tested : (r : Result Bool) → Settles (tested services r)
  unfolding tested
  Settles-tested (ok b) = Settles-pure b
  Settles-tested (throws message) = Settles-throw message

  pub Settles-check : (b : Bool) (d : Text) (detail : Option Text) → Settles (check b d detail)
  unfolding check
  Settles-check b d detail = search (Settles-if, Settles-print, Settles-push, Settles-bind)

  Ends-answered :
      {A : Type 0} (r : Result A) (w : services.World) (s : State services.World)
      → services.now s.world ≤ services.now w
      → Ends s (answered services (r, w) s)
  Ends-answered (ok a) w s h = record {
    finished = tt;
    later = record { clock = h; failures = Extends-refl s.failures };
  }
  Ends-answered (throws e) w s h = record {
    finished = tt;
    later = record { clock = h; failures = Extends-refl s.failures };
  }

  module _ (laws : Lawful services) where
    pub Settles-send : (r : Request) → Settles (send services r)
    unfolding send
    Settles-send r = record {
      at = λ s.
          let (a, w) = services.send r s.world in Ends-answered a w s (laws.send_now r s.world);
    }

    pub Settles-sleep : (ms : ℕ) → Settles (sleep services ms)
    unfolding sleep
    Settles-sleep ms = record {
      at = λ s. record {
        finished = tt;
        later = record {
          clock = omega (arith, laws.sleep_now ms s.world);
          failures = Extends-refl s.failures;
        };
      };
    }

pub ruleset settles_rules = (
  Settles-pure, Settles-throw, Settles-if, Settles-bind, Settles-print, Settles-push, Settles-exit,
  Settles-now, Settles-tested, Settles-check, Settles-send, Settles-sleep,
)
