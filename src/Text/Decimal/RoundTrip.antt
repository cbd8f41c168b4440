-- ===== src/Text/Decimal/RoundTrip.antt =====
-- Printing a number and reading it back.
use mathlib.Core.Logic.{dif_pos, dif_neg, ◌⊎◌, inl, inr}
use mathlib.Core.WellFounded.{Acc}
use native.Mathlib.Bridge.{le_prop}
use refresh.Prelude.{
  ℕ, zero, suc, ◌+◌, ◌-◌, ◌*◌, ◌/◌, ◌%◌, ◌<◌, ◌≤◌, ◌≡◌, refl, [], ◌∷◌, ◌++◌, arith, dec_lt, ◌≢◌, ap,
  ◌∙◌,
}
use refresh.Prelude.Order.{lt_wf}
use refresh.Prelude.Int.{pos, max_int}
use refresh.Text.{Text}
use refresh.Text.Trim.{Graphic}
use refresh.Text.Split.{Lacks}
use refresh.Text.Decimal.{digits, format_nat, quotient-lt, parsed, scan, atoi}

-- The text holds digits only, and at least one.
abbrev pub AllDigits : Text → Type 0
AllDigits [] = Unit
AllDigits (c ∷ s) = (b'0' ≤ c) × (c ≤ b'9') × AllDigits s

AllDigits-snoc : (s : Text) (d : ℕ) → AllDigits s → d < 10 → AllDigits (s ++ (b'0' + d) ∷ [])
AllDigits-snoc [] d h k = omega arith
AllDigits-snoc (c ∷ s) d h k = (h.0, h.1, AllDigits-snoc s d h.2 k)

-- The equation of the loop: the last digit stands behind the digits of the quotient.
digits_step :
    (n : ℕ) (w : Acc ◌<◌ n)
    → ((n < 10) × (digits n w ≡ (b'0' + n) ∷ []))
      ⊎ ((10 ≤ n)
          × ((v : Acc ◌<◌ (n / 10)) × (digits n w ≡ digits (n / 10) v ++ (b'0' + n % 10) ∷ [])))
unfolding digits
digits_step n (Acc.intro _ smaller) = elim (dec_lt n 10) [
  | yes h ↦ inl (h, dif_pos (dec_lt n 10) le_prop h _ _)
  | no h ↦ inr (omega arith, (smaller (n / 10) (quotient-lt n h), dif_neg (dec_lt n 10) h _ _))
]

digits-AllDigits : (k n : ℕ) (w : Acc ◌<◌ n) → n < k → AllDigits (digits n w)
digits-AllDigits zero n w h = elim h [ ]
digits-AllDigits (suc k) n w h = elim (digits_step n w) [
  | inl (small, e) ↦ rw e (omega arith)
  | inr (large, (v, e)) ↦
      rw e (AllDigits-snoc _ (n % 10) (digits-AllDigits k (n / 10) v (omega arith)) (omega arith))
]

scan-snoc :
    (s : Text) (acc v d : ℕ)
    → scan acc s ≡ parsed v
    → d < 10
    → v * 10 + d ≤ 18446744073709551615
    → scan acc (s ++ (b'0' + d) ∷ []) ≡ parsed (v * 10 + d)
unfolding scan
scan-snoc [] acc v d h k bound = ground arith
scan-snoc (c ∷ s) acc v d h k bound = ground (arith, scan-snoc s (acc * 10 + (c - b'0')) v d)

scan-digits :
    (k n : ℕ) (w : Acc ◌<◌ n) → n < k → n ≤ 18446744073709551615 → scan 0 (digits n w) ≡ parsed n
scan-digits zero n w h bound = elim h [ ]
scan-digits (suc k) n w h bound = elim (digits_step n w) [
  | inl (small, e) ↦ rw e (unfold scan in ground arith)
  | inr (large, (v, e)) ↦ rw e (
      scan-snoc _ 0 (n / 10) (n % 10) (scan-digits k (n / 10) v (omega arith) (omega arith))
        (omega arith) (omega arith)
      ∙ ap parsed (omega arith))
]

snoc-ne-nil : (s : Text) (c : ℕ) → (s ++ c ∷ []) ≢ []
snoc-ne-nil [] c = λ e. cc
snoc-ne-nil (d ∷ s) c = λ e. cc

digits-ne-nil : (n : ℕ) (w : Acc ◌<◌ n) → digits n w ≢ []
digits-ne-nil n w = elim (digits_step n w) [
  | inl (small, e) ↦ rw e (λ p. cc)
  | inr (large, (v, e)) ↦ rw e (snoc-ne-nil _ _)
]

pub format_nat-AllDigits : (n : ℕ) → AllDigits (format_nat n)
unfolding format_nat
format_nat-AllDigits n = digits-AllDigits (suc n) n (lt_wf.apply n) (omega arith)

pub format_nat-ne-nil : (n : ℕ) → format_nat n ≢ []
unfolding format_nat
format_nat-ne-nil n = digits-ne-nil n (lt_wf.apply n)

scan-format_nat : (n : ℕ) → n ≤ 18446744073709551615 → scan 0 (format_nat n) ≡ parsed n
unfolding format_nat
scan-format_nat n h = scan-digits (suc n) n (lt_wf.apply n) (omega arith) h

-- A text of digits is read without a sign.
atoi-AllDigits :
    (s : Text) {n : ℕ}
    → AllDigits s
    → s ≢ []
    → scan 0 s ≡ parsed n
    → n ≤ max_int
    → atoi s ≡ parsed (pos n)
unfolding atoi
atoi-AllDigits [] h ne e bound = absurd (ne refl)
atoi-AllDigits (c ∷ s) h ne e bound = ground arith

-- A number that fits an `int` is read back from its decimal digits.
pub atoi-format_nat : (n : ℕ) → n ≤ max_int → atoi (format_nat n) ≡ parsed (pos n)
atoi-format_nat n h =
    atoi-AllDigits (format_nat n) (format_nat-AllDigits n) (format_nat-ne-nil n)
      (scan-format_nat n (omega arith)) h

-- The digits hold no character that is not a digit.
pub AllDigits-Lacks : (s : Text) (c : ℕ) → c < b'0' → AllDigits s → Lacks c s
AllDigits-Lacks [] c h d = tt
AllDigits-Lacks (x ∷ s) c h d = (omega arith, AllDigits-Lacks s c h d.2)

pub AllDigits-Graphic : (s : Text) → AllDigits s → Graphic s
AllDigits-Graphic [] h = tt
AllDigits-Graphic (c ∷ s) h = (omega arith, omega arith, AllDigits-Graphic s h.2)
