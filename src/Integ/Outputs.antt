-- ===== src/Integ/Outputs.antt =====
-- The object that `outputs` of scripts/verify-integ.ts fills, read back.
use cdk_log_to_s.Prelude.{
  Text, text_eq, text_eq_iff, false, List, [], ◌∷◌, Option, none, some, if◌then◌else◌, ◌≡◌, ◌≢◌,
  refl, arith,
}
use cdk_log_to_s.Integ.Query.{assign, member, add_output}

member-assign :
    (key j value : Text) (m : List (Text × Text))
    → member j (assign key value m) ≡ (if text_eq key j then some value else member j m)
unfolding member assign
member-assign key j value [] = refl
member-assign key j value ((k, v) ∷ m) =
    ground
      (arith, text_eq_iff k key, text_eq_iff k j, text_eq_iff key j, member-assign key j value m)

-- An output of another name changes nothing.
pub member-add_output_other :
    (j k : Text) (value : Option Text) (m : List (Text × Text))
    → text_eq j k ≡ false
    → member k (add_output (some j) value m) ≡ member k m
unfolding add_output
member-add_output_other [] k value m h = refl
member-add_output_other (c ∷ j) k none m h = refl
member-add_output_other (c ∷ j) k (some []) m h = refl
member-add_output_other (c ∷ j) k (some (d ∷ value)) m h = rw (member-assign, h)

-- One that has a value is found.
pub member-add_output :
    (k value : Text) (m : List (Text × Text))
    → k ≢ []
    → value ≢ []
    → member k (add_output (some k) (some value) m) ≡ some value
unfolding add_output
member-add_output [] value m h l = absurd (h refl)
member-add_output (c ∷ k) [] m h l = absurd (l refl)
member-add_output (c ∷ k) (d ∷ value) m h l =
    rw (member-assign, (text_eq_iff (c ∷ k) (c ∷ k)).1 refl)
