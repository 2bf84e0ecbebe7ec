-- ===== src/Cli/Lines.antt =====
-- splitLines of cli/internal/db/migrate.go beside strings.Split, and lines that were joined.
pub mod Env
use garance.Prelude.{
  ℕ, zero, suc, ◌+◌, ◌-◌, ◌<◌, ◌≡◌, ◌≢◌, inl, inr, refl, sym, ap, ◌∙◌, Bool, true, false, List, [],
  ◌∷◌, ◌++◌, map, Str, All, All-append, ◌==◌, nat_eq, str_eq, nat_beq_iff, str_beq_iff, Bool-cases,
  ==_refl, ==_false, eq_of_==, if◌then◌else◌, ltb, length, length-append, take, drop, take-append,
  drop-append, arith,
}
use mathlib.Core.List.{append-nil, append_assoc}
use garance.Encoding.Split.{split, split-append, split-last, split-ne-nil}
use garance.Cli.Db.{slice, byte_at, trim_cr, split_loop, split_lines}

abbrev pub newline : ℕ
newline = 0x0A

-- A piece without the '\r' that may stand at its end.
abbrev pub without_cr : Str → Str
without_cr [] = []
without_cr (c ∷ []) = if c == 0x0D then [] else c ∷ []
without_cr (c ∷ d ∷ s) = c ∷ without_cr (d ∷ s)

pub trim_cr_lem :
    (s : Str) (n : ℕ) → length s ≡ suc n → trim_cr s ≡ (if byte_at s n == 0x0D then take n s else s)
unfolding trim_cr
trim_cr_lem s n h = let e : length s - 1 ≡ n = omega arith in rw e (ground arith)

trim_last :
    (c : ℕ) (s : Str)
    → (if byte_at (c ∷ s) (length s) == 0x0D then take (length s) (c ∷ s) else c ∷ s)
      ≡ without_cr (c ∷ s)
trim_last c [] = refl
trim_last c (d ∷ s) = elim (Bool-cases (byte_at (d ∷ s) (length s) == 0x0D)) [
  | inl cr ↦ rw cr (ap (◌∷◌ c) (rw cr at (trim_last d s)))
  | inr other ↦ rw other (ap (◌∷◌ c) (rw other at (trim_last d s)))
]

pub trim_cr-without_cr : (line : Str) → trim_cr line ≡ without_cr line
unfolding trim_cr
trim_cr-without_cr [] = refl
trim_cr-without_cr (c ∷ s) = trim_cr_lem (c ∷ s) (length s) refl ∙ trim_last c s

-- What becomes of the pieces between newlines: the last one is not followed by a newline. It is
-- left out if it is empty, and keeps its '\r'.
abbrev pub finish : List Str → List Str
finish [] = []
finish (last ∷ []) = if ltb 0 (length last) then last ∷ [] else []
finish (piece ∷ next ∷ pieces) = without_cr piece ∷ finish (next ∷ pieces)

finish-cons :
    (piece : Str) (pieces : List Str)
    → pieces ≢ []
    → finish (piece ∷ pieces) ≡ without_cr piece ∷ finish pieces
finish-cons piece [] h = absurd (h refl)
finish-cons piece (next ∷ pieces) h = refl

byte_at-append :
    (a : Str) (c : ℕ) (rest : Str) {i : ℕ} → length a ≡ i → byte_at (a ++ c ∷ rest) i ≡ c
byte_at-append a c rest {i} h = rw (drop-append a (c ∷ rest) h)

slice-append :
    (a b c : Str) {i : ℕ} (j : ℕ) → length a ≡ i → length b ≡ j - i → slice (a ++ (b ++ c)) i j ≡ b
slice-append a b c {i} j h k = rw (drop-append a (b ++ c) h) (take-append b c k)

slice-last : (a b : Str) → slice (a ++ b) (length a) (length (a ++ b)) ≡ b
slice-last a b =
    ap (λ t. slice (a ++ t) (length a) (length (a ++ b))) (sym (append-nil b))
    ∙ slice-append a b [] (length (a ++ b)) refl (omega (arith, length-append a b))

-- What follows the loop.
split_loop-zero :
    (pre line : Str) (i : ℕ) (lines : List Str)
    → All (λ c. c ≢ newline) line
    → split_loop (pre ++ line) zero i (length pre) lines ≡ lines ++ finish (split newline line)
unfolding split_loop split
split_loop-zero pre [] i lines h = rw (append-nil, append-nil) (ground (arith, append-nil lines))
split_loop-zero pre (c ∷ line) i lines h =
    rw (split-last newline (c ∷ line) h, slice-last pre (c ∷ line))
      (ground (arith, length-append pre (c ∷ line)))

split_loop-newline :
    (s : Str) (n i start : ℕ) (lines : List Str)
    → byte_at s i ≡ newline
    → split_loop s (suc n) i start lines
      ≡ split_loop s n (i + 1) (i + 1) (lines ++ trim_cr (slice s start i) ∷ [])
unfolding split_loop
split_loop-newline s n i start lines h = ground (arith, nat_beq_iff (byte_at s i) newline)

split_loop-other :
    (s : Str) (n i start : ℕ) (lines : List Str)
    → byte_at s i ≢ newline
    → split_loop s (suc n) i start lines ≡ split_loop s n (i + 1) start lines
unfolding split_loop
split_loop-other s n i start lines h = ground (arith, nat_beq_iff (byte_at s i) newline)

-- A newline ends the piece before it.
pub finish-newline :
    (line rest : Str)
    → All (λ c. c ≢ newline) line
    → finish (split newline (line ++ newline ∷ rest))
      ≡ without_cr line ∷ finish (split newline rest)
finish-newline line rest h =
    rw (split-append newline line rest h) (finish-cons line _ (split-ne-nil newline rest))

-- The loop, when `pre` is done and `line` is the part of the line that it has passed.
split_loop_lem :
    (pre line rest : Str) (lines : List Str) {s : Str} {i start : ℕ}
    → s ≡ pre ++ (line ++ rest)
    → start ≡ length pre
    → i ≡ length pre + length line
    → All (λ c. c ≢ newline) line
    → split_loop s (length rest) i start lines ≡ lines ++ finish (split newline (line ++ rest))
split_loop_lem pre line [] lines {s} {i} {start} es e ei h =
    rw (es, e, append-nil) (split_loop-zero pre line i lines h)
split_loop_lem pre line (c ∷ rest) lines {s} {i} {start} es e ei h =
    elim (Bool-cases (c == newline)) [
      | inl is_newline ↦
          let c-eq : c ≡ newline = eq_of_== c newline is_newline in
          let s-eq : s ≡ pre ++ (line ++ newline ∷ rest) = rw (← c-eq) es in
          let s-eq' : s ≡ (pre ++ (line ++ newline ∷ [])) ++ rest =
            rw (append_assoc, append_assoc) s-eq in
          let piece : slice s start i ≡ line =
            rw es (slice-append pre line (c ∷ rest) i (sym e) (omega arith)) in
          split_loop-newline s (length rest) i start lines (at_i ∙ c-eq)
          ∙ split_loop_lem (pre ++ (line ++ newline ∷ [])) [] rest _ s-eq'
              (omega (arith, more newline)) (omega (arith, more newline)) tt
          ∙ rw (piece, trim_cr-without_cr line, c-eq, append_assoc)
              (ap (λ t. lines ++ t) (sym (finish-newline line rest h)))
      | inr other ↦
          let c-ne : c ≢ newline = λ q. cc ((nat_beq_iff c newline).1 q) in
          split_loop-other s (length rest) i start lines (λ q. c-ne (sym at_i ∙ q))
          ∙ split_loop_lem pre (line ++ c ∷ []) rest lines (rw append_assoc es) e
              (omega (arith, length-append line (c ∷ []))) (All-append _ line (c ∷ []) h (c-ne, tt))
          ∙ rw append_assoc refl
    ]
  where
    at_i : byte_at s i ≡ c
    at_i =
        rw (es, ← append_assoc)
          (byte_at-append (pre ++ line) c rest (omega (arith, length-append pre line)))

    more : (d : ℕ) → length (pre ++ (line ++ d ∷ [])) ≡ i + 1
    more d = omega (arith, length-append pre (line ++ d ∷ []), length-append line (d ∷ []))

-- splitLines cuts where strings.Split by "\n" cuts; each piece but the last then loses one "\r" at
-- its end, and the last one is kept as it is, or left out if it is empty.
pub split_lines-split : (s : Str) → split_lines s ≡ finish (split newline s)
unfolding split_lines
split_lines-split s = split_loop_lem [] [] s [] refl refl refl tt
