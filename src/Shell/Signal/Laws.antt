-- ===== src/Shell/Signal/Laws.antt =====
-- How much the handler of the interrupt reads.
use cs551os.Prelude.{
  ℕ, zero, suc, ◌<◌, ◌≡◌, ap, refl, Bool, false, [], ◌∷◌, ◌++◌, length, if◌then◌else◌, done,
  out_of_fuel, ◌>>=◌, Bool-cases, inl, inr, arith,
}
use cs551os.Lines.{Text, newline}
use cs551os.Lines.Laws.{has_newline, plain_cons}
use cs551os.Shell.Signal.{exits, goes_on, is_yes, skip_line, answer, signal_handler, sigint}

skip_line-newline :
    (fuel : ℕ) (l rest : Text)
    → has_newline l ≡ false
    → length l < fuel
    → skip_line fuel (l ++ (newline ∷ rest)) ≡ done rest
unfolding skip_line
skip_line-newline zero l rest plain lt = absurd (omega arith)
skip_line-newline (suc fuel) [] rest plain lt = refl
skip_line-newline (suc fuel) (c ∷ l) rest plain lt =
    let (other, plain') = plain_cons c l plain in
    rw other (skip_line-newline fuel l rest plain' (omega arith))

skip_line-end : (fuel : ℕ) (l : Text) → has_newline l ≡ false → skip_line fuel l ≡ out_of_fuel
unfolding skip_line
skip_line-end zero l plain = refl
skip_line-end (suc fuel) [] plain = skip_line-end fuel [] plain
skip_line-end (suc fuel) (c ∷ l) plain =
    let (other, plain') = plain_cons c l plain in rw other (skip_line-end fuel l plain')

-- The answer begins with a y.
abbrev pub says_yes : Text → Bool
says_yes [] = false
says_yes (c ∷ l) = is_yes c

-- For the answer `l` in one line, and more fuel than it is long: if it begins with y or Y, the
-- shell ends, whatever follows. If not, the handler returns with just that line read; and if the
-- input ends without a newline, it never returns, whatever the fuel.
pub signal_handler_lem :
    (fuel : ℕ) (l rest : Text)
    → has_newline l ≡ false
    → length l < fuel
    → (signal_handler fuel sigint (l ++ (newline ∷ rest))
        ≡ done (if says_yes l then exits else goes_on rest))
      × (signal_handler fuel sigint l ≡ (if says_yes l then done exits else out_of_fuel))
unfolding signal_handler answer
signal_handler_lem fuel [] rest plain lt =
    (refl, ap (λ r. r >>= (λ t. done (goes_on t))) (skip_line-end fuel [] plain))
signal_handler_lem fuel (c ∷ l) rest plain lt =
    let (other, plain') = plain_cons c l plain in
    elim (Bool-cases (is_yes c)) [
      | inl agreed ↦ (rw agreed refl, rw agreed refl)
      | inr declined ↦ (
        rw (declined, other, skip_line-newline fuel l rest plain' (omega arith)) refl,
        rw (declined, other, skip_line-end fuel l plain') refl,
      )
    ]
