-- ===== src/Mic/Shure/Words.antt =====
-- A message of shure.rs is read back as its words.
use mathlib.Core.List.{append_assoc, append-nil}
use dante_babel_box.Prelude.{
  ℕ, suc, ◌+◌, ◌-◌, ◌≢◌, false, some, List, [], ◌∷◌, ◌++◌, ◌≡◌, refl, ap, ◌∙◌, sym, arith,
  length-append, length, take, drop, take-append, drop-append, All, All-append,
}
use dante_babel_box.Mic.Shure.{
  is_whitespace, flush, split, split_whitespace, position, next_message,
}
use dante_babel_box.Mic.Shure.Framing.{next_found}

-- A word has a character, and neither white space nor the end of a message.
abbrev pub InWord : ℕ → Type 0
InWord b = (is_whitespace b ≡ false) × (b ≢ 62)

abbrev pub IsWord : List ℕ → Type 0
IsWord [] = ⊥
IsWord (b ∷ bs) = All InWord (b ∷ bs)

-- The words, each behind a space.
abbrev pub spaced : List (List ℕ) → List ℕ
spaced [] = []
spaced (w ∷ ws) = 32 ∷ w ++ spaced ws

split_word :
    (w rest : List ℕ) → All InWord w → split (w ++ rest) ≡ (w ++ (split rest).0, (split rest).1)
unfolding split
split_word [] rest h = refl
split_word (b ∷ bs) rest h = rw (split_word bs rest h.1, h.0.0) refl

split_space : (rest : List ℕ) → split (32 ∷ rest) ≡ ([], flush (split rest).0 (split rest).1)
unfolding split
split_space rest = refl

flush_word : (w : List ℕ) (ws : List (List ℕ)) → IsWord w → flush w ws ≡ w ∷ ws
flush_word [] ws h = absurd h
flush_word (b ∷ bs) ws h = refl

in_word : (w : List ℕ) → IsWord w → All InWord w
in_word [] h = tt
in_word (b ∷ bs) h = h

split-spaced : (ws : List (List ℕ)) → All IsWord ws → split (spaced ws ++ 32 ∷ []) ≡ ([], ws)
split-spaced [] h = unfold split in refl
split-spaced (w ∷ ws) h =
    split_space ((w ++ spaced ws) ++ 32 ∷ [])
    ∙ rw
        (
          append_assoc w (spaced ws) (32 ∷ []),
          split_word w (spaced ws ++ 32 ∷ []) (in_word w h.0),
          split-spaced ws h.1,
          append-nil w,
          flush_word w ws h.0,
        )
        refl

position_after :
    (c : ℕ) (xs more : List ℕ)
    → All (λ b. b ≢ c) xs
    → position c (xs ++ c ∷ more) ≡ some (length xs)
unfolding position
position_after c [] more h = ground arith
position_after c (x ∷ xs) more h = ground (arith, h.0, position_after c xs more h.1)

no_end : (ws : List (List ℕ)) → All IsWord ws → All (λ b. b ≢ 62) (60 ∷ spaced ws ++ 32 ∷ [])
no_end ws h = (
  (λ e. omega (arith, e)),
  All-append (λ b. b ≢ 62) (spaced ws) (32 ∷ []) (inside ws h) ((λ e. omega (arith, e)), tt),
)
  where
    letters : (w : List ℕ) → All InWord w → All (λ b. b ≢ 62) w
    letters [] h = tt
    letters (b ∷ bs) h = (h.0.1, letters bs h.1)

    inside : (ws : List (List ℕ)) → All IsWord ws → All (λ b. b ≢ 62) (spaced ws)
    inside [] h = tt
    inside (w ∷ ws) h = (
      (λ e. omega (arith, e)),
      All-append (λ b. b ≢ 62) w (spaced ws) (letters w (in_word w h.0)) (inside ws h.1),
    )

drop_exact : (n : ℕ) (xs ys : List ℕ) → length xs ≡ n → drop n (xs ++ ys) ≡ ys
drop_exact n xs ys e = ap (λ (n : ℕ). drop n (xs ++ ys)) (sym e) ∙ drop-append xs ys

-- Where the body of a message begins, and where what follows it does.
module _ (junk body more : List ℕ) where
  behind_start : drop (length junk + 1) (junk ++ (60 ∷ body ++ 62 ∷ more)) ≡ body ++ 62 ∷ more
  behind_start =
      ap (drop (length junk + 1)) (sym (append_assoc junk (60 ∷ []) (body ++ 62 ∷ more)))
      ∙ drop_exact (length junk + 1) (junk ++ 60 ∷ []) (body ++ 62 ∷ more)
          (length-append junk (60 ∷ []))

  behind_end : drop (length junk + length (60 ∷ body) + 1) (junk ++ (60 ∷ body ++ 62 ∷ more)) ≡ more
  behind_end =
      ap (λ (t : List ℕ). drop (length junk + length (60 ∷ body) + 1) (junk ++ (60 ∷ t)))
        (sym (append_assoc body (62 ∷ []) more))
      ∙ ap (drop (length junk + length (60 ∷ body) + 1))
          (sym (append_assoc junk (60 ∷ body ++ 62 ∷ []) more))
      ∙ drop_exact (length junk + length (60 ∷ body) + 1) (junk ++ (60 ∷ body ++ 62 ∷ [])) more
          (omega (arith, length-append junk (60 ∷ body ++ 62 ∷ []), length-append body (62 ∷ [])))

  pred_suc : (n : ℕ) → suc n - 1 ≡ n
  pred_suc n = omega arith

  body_between :
      take (length (60 ∷ body) - 1) (drop (length junk + 1) (junk ++ (60 ∷ body ++ 62 ∷ more)))
      ≡ body
  body_between = rw (behind_start, pred_suc (length body)) (take-append body (62 ∷ more))

-- Words that are sent in angle brackets come out as they are, whatever follows them and whatever
-- stands before them, if there is no opening bracket in it.
pub next_message-framed :
    (junk : List ℕ) (ws : List (List ℕ)) (more : List ℕ)
    → All (λ b. b ≢ 60) junk
    → All IsWord ws
    → next_message (junk ++ (60 ∷ (spaced ws ++ 32 ∷ []) ++ 62 ∷ more)) ≡ (some ws, more)
next_message-framed junk ws more h k =
    next_found (junk ++ (60 ∷ (spaced ws ++ 32 ∷ []) ++ 62 ∷ more)) (length junk)
      (length (60 ∷ spaced ws ++ 32 ∷ []))
      (position_after 60 junk ((spaced ws ++ 32 ∷ []) ++ 62 ∷ more) h)
      (rw (drop-append junk (60 ∷ (spaced ws ++ 32 ∷ []) ++ 62 ∷ more))
        (position_after 62 (60 ∷ spaced ws ++ 32 ∷ []) more (no_end ws k)))
    ∙ rw
        (body_between junk (spaced ws ++ 32 ∷ []) more, behind_end junk (spaced ws ++ 32 ∷ []) more)
        (ap (λ (words : List (List ℕ)). (some words, more)) words)
  where
    words : split_whitespace (spaced ws ++ 32 ∷ []) ≡ ws
    words = unfold split_whitespace in rw (split-spaced ws k) refl
