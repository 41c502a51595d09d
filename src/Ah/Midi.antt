-- ===== src/Ah/Midi.antt =====
-- The framing that the `MidiStreamParser`s of dlive.rs and ahm.rs have in common: the first octet,
-- and for dLive the running status, say what is taken off the buffer.
pub mod Laws
use dante_babel_box.Prelude.{
  ℕ, zero, suc, ◌+◌, ◌≤◌, ◌<◌, Option, none, some, List, [], ◌∷◌, ◌++◌, ◌≡◌, refl, ap, ◌∙◌, sym,
  arith, length, take, drop, ltb, ◌==◌, if◌then◌else◌,
}

-- `R` is what the parser remembers besides its buffer.
pub record Parser (R : Type 0) : Type 0 where
  pub buf : List ℕ
  pub running : R

-- What the first octet calls for: it is dropped, or a message that ends in F7 begins, or one of
-- that many octets of the buffer, to which `prefix` is put in front. The last part is what the
-- parser remembers then.
pub data Plan (R : Type 0) : Type 0 where
  skip : Plan R
  sysex : R → Plan R
  message : List ℕ → ℕ → R → Plan R

-- `self.buf.iter().position(|&b| b == 0xF7)`, and one more.
unfoldable pub end_of_sysex : List ℕ → Option ℕ
end_of_sysex [] = none
end_of_sysex (b ∷ bs) =
    if b == 247 then some 1 else elim (end_of_sysex bs) [ none ↦ none | some n ↦ some (suc n) ]

module _ {R : Type 0} where
  abbrev pub taken : List ℕ → List ℕ → R → ℕ → Option (List ℕ) × Parser R
  taken prefix buf remembered n =
      (some (prefix ++ take n buf), record { buf = drop n buf; running = remembered })

  -- The first `n` octets make the message, or it is not there in full.
  abbrev pub cut : List ℕ → List ℕ → R → R → ℕ → Option (List ℕ) × Parser R
  cut prefix buf running remembered n =
      if ltb (length buf) n
      then (none, record { buf = buf; running = running })
      else taken prefix buf remembered n

  abbrev pub cut_sysex : List ℕ → R → R → Option ℕ → Option (List ℕ) × Parser R
  cut_sysex buf running remembered none = (none, record { buf = buf; running = running })
  cut_sysex buf running remembered (some n) = taken [] buf remembered n

  abbrev pub act : Plan R → List ℕ → R → Option (List ℕ) × Parser R → Option (List ℕ) × Parser R
  act Plan.skip buf running skipped = skipped
  act (Plan.sysex remembered) buf running skipped =
      cut_sysex buf running remembered (end_of_sysex buf)
  act (Plan.message prefix n remembered) buf running skipped = cut prefix buf running remembered n

  unfoldable pub push : Parser R → List ℕ → Parser R
  push p more = record p { buf = p.buf ++ more }

  abbrev pub pending : Parser R → ℕ
  pending p = length p.buf

module _ {R : Type 0} (plan : ℕ → R → Plan R) where
  unfoldable pub next_from : List ℕ → R → Option (List ℕ) × Parser R
  unfolding end_of_sysex
  next_from [] running = (none, record { buf = []; running = running })
  next_from (first ∷ rest) running =
      act (plan first running) (first ∷ rest) running (next_from rest running)

  unfoldable pub next_message : Parser R → Option (List ℕ) × Parser R
  unfolding next_from
  next_message p = next_from p.buf p.running
