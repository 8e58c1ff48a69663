-- ===== src/Text/Order.antt =====
-- The order of `str`, by which the program sorts.
use Prim.Native.Nat.{Ordering}
use rust_agent_harness.Prelude.{◌≡◌, refl, Bool, true, false, [], ◌∷◌, arith}
use rust_agent_harness.Text.Scalars.{Text, compare_text}

abbrev pub text_le : Text → Text → Bool
text_le a b = elim (compare_text a b) [ Ordering.gt ↦ false | _ ↦ true ]

pub compare_text-gt : (a b : Text) → compare_text a b ≡ Ordering.gt → compare_text b a ≡ Ordering.lt
unfolding compare_text
compare_text-gt [] [] h = cc
compare_text-gt [] (y ∷ b) h = cc
compare_text-gt (x ∷ a) [] h = refl
compare_text-gt (x ∷ a) (y ∷ b) h = ground (arith, compare_text-gt a b)

pub text_le_total : (a b : Text) → text_le a b ≡ false → text_le b a ≡ true
text_le_total a b h = ground (arith, compare_text-gt a b)

pub text_le_trans : (a b c : Text) → text_le a b ≡ true → text_le b c ≡ true → text_le a c ≡ true
unfolding compare_text
text_le_trans [] b [] h k = refl
text_le_trans [] b (z ∷ c) h k = refl
text_le_trans (x ∷ a) [] c h k = cc
text_le_trans (x ∷ a) (y ∷ b) [] h k = cc
text_le_trans (x ∷ a) (y ∷ b) (z ∷ c) h k = ground (arith, text_le_trans a b c)
