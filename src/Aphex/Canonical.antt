-- ===== src/Aphex/Canonical.antt =====
-- `Message::decode` of the Aphex codec on whatever arrives.
use dante_babel_box.Prelude.{
  ℕ, zero, suc, ◌+◌, ◌-◌, ◌*◌, ◌/◌, ◌%◌, ◌≤◌, ◌<◌, false, ◌&&◌, ◌||◌, not, Option, none, some, List,
  [], ◌∷◌, ◌++◌, ◌≡◌, refl, sym, ap, ◌∙◌, arith, length, take, drop, get_or, ltb, ◌==◌, ok, >>=-ok,
  refuse_if-ok, ok_inj, ltb_false→le, ok_or, All,
}
use mathlib.Core.Path.{subst}
use dante_babel_box.Aphex.{
  Control, Error, opcode, from_opcode, value_range, DeviceAddress, new_address, Command,
  new_command, to_bytes, Message, new_message, all_bytes, encode, commands_of, octet, body,
  is_aphex, decode, max_data_byte, max_commands, sysex_end, sysex_start,
}
use dante_babel_box.Aphex.RoundTrip.{IsAddress, IsCommand, IsMessage}

new_address-ok :
    (x y z : ℕ) (a : DeviceAddress)
    → new_address x y z ≡ ok a
    → IsAddress a × (a.midi_channel ≡ x) × (a.midi_device ≡ y) × (a.net_number ≡ z)
unfolding new_address
new_address-ok x y z a h =
    let (b1, k1) = refuse_if-ok (ltb max_data_byte x) _ _ a h in
    let (b2, k2) = refuse_if-ok (ltb max_data_byte y) _ _ a k1 in
    let (b3, k3) = refuse_if-ok (ltb max_data_byte z) _ _ a k2 in
    subst
      (λ (d : DeviceAddress).
        IsAddress d × (d.midi_channel ≡ x) × (d.midi_device ≡ y) × (d.net_number ≡ z))
      (ok_inj _ a _ refl k3)
      (
        record {
          midi_channel = ltb_false→le _ _ b1;
          midi_device = ltb_false→le _ _ b2;
          net_number = ltb_false→le _ _ b3;
        },
        refl,
        refl,
        refl,
      )

new_command-ok :
    (control : Control) (mic value : ℕ) (c : Command)
    → new_command control mic value ≡ ok c
    → IsCommand c × (c.control ≡ control) × (c.mic_channel ≡ mic) × (c.value ≡ value)
unfolding new_command
new_command-ok control mic value c h =
    let (b1, k1) = refuse_if-ok (ltb max_data_byte mic) _ _ c h in
    let (b2, k2) =
      refuse_if-ok (ltb value (value_range control).0 || ltb (value_range control).1 value) _ _ c
        k1 in
    let bounds = within value (value_range control).0 (value_range control).1 b2 in
    subst
      (λ (d : Command).
        IsCommand d × (d.control ≡ control) × (d.mic_channel ≡ mic) × (d.value ≡ value))
      (ok_inj _ c _ refl k2)
      (
        record { mic_channel = ltb_false→le _ _ b1; at_least = bounds.0; at_most = bounds.1 },
        refl,
        refl,
        refl,
      )
  where
    within : (v lo hi : ℕ) → ltb v lo || ltb hi v ≡ false → (lo ≤ v) × (v ≤ hi)
    within v lo hi b = ground arith

from_opcode-some : (code : ℕ) (c : Control) → from_opcode code ≡ some c → opcode c ≡ code
unfolding from_opcode opcode
from_opcode-some code c h = ground arith

-- What is left of a body after its whole commands is nothing.
commands_of-ok :
    (octets : List ℕ) (k : ℕ) (cs : List Command)
    → length octets ≡ 3 * k
    → commands_of octets ≡ ok cs
    → All IsCommand cs × (all_bytes cs ≡ octets)
unfolding commands_of all_bytes to_bytes
commands_of-ok [] k cs e h =
    subst (λ (cs : List Command). All IsCommand cs × (all_bytes cs ≡ [])) (ok_inj [] cs _ refl h)
      (tt, refl)
commands_of-ok (a ∷ []) k cs e h = absurd (omega arith)
commands_of-ok (a ∷ b ∷ []) k cs e h = absurd (omega arith)
commands_of-ok (a ∷ b ∷ c ∷ rest) k cs e h =
    let (control, ec, h1) = >>=-ok (ok_or (from_opcode a) (Error.unknown_opcode a)) _ cs h in
    let (command, em, h2) = >>=-ok (new_command control b c) _ cs h1 in
    let (more, er, h3) = >>=-ok (commands_of rest) _ cs h2 in
    let one = new_command-ok control b c command em in
    let others = commands_of-ok rest (k - 1) more (omega arith) er in
    subst (λ (cs : List Command). All IsCommand cs × (all_bytes cs ≡ a ∷ b ∷ c ∷ rest))
      (ok_inj (command ∷ more) cs _ refl h3)
      (
        (one.0, others.0),
        written command more (ap opcode one.1 ∙ from_opcode-some a control (found ec)) one.2 one.3
            others.1,
      )
  where
    found :
        {control : Control}
        → ok_or (from_opcode a) (Error.unknown_opcode a) ≡ ok control
        → from_opcode a ≡ some control
    found {control} e = some_of (from_opcode a) control e
      where
        some_of :
            (o : Option Control) (control : Control)
            → ok_or o (Error.unknown_opcode a) ≡ ok control
            → o ≡ some control
        some_of none control e = grind arith
        some_of (some d) control e = grind arith

    written :
        (command : Command) (more : List Command)
        → opcode command.control ≡ a
        → command.mic_channel ≡ b
        → command.value ≡ c
        → all_bytes more ≡ rest
        → all_bytes (command ∷ more) ≡ a ∷ b ∷ c ∷ rest
    written command more p q r s = unfold all_bytes to_bytes in rw (p, q, r, s) refl

head_drop : (n : ℕ) (xs : List ℕ) → n < length xs → drop n xs ≡ get_or xs n 0 ∷ drop (suc n) xs
head_drop zero [] h = absurd (omega arith)
head_drop zero (x ∷ xs) h = refl
head_drop (suc n) [] h = absurd (omega arith)
head_drop (suc n) (x ∷ xs) h = head_drop n xs (omega arith)

drop_last :
    (n k : ℕ) (xs : List ℕ)
    → length xs ≡ suc k
    → n ≤ k
    → drop n xs ≡ drop n (take k xs) ++ get_or xs k 0 ∷ []
drop_last n k [] e h = absurd (omega arith)
drop_last zero zero (x ∷ []) e h = refl
drop_last zero zero (x ∷ y ∷ xs) e h = absurd (omega arith)
drop_last zero (suc k) (x ∷ xs) e h =
    ap (λ (t : List ℕ). x ∷ t) (drop_last zero k xs (omega arith) (omega arith))
drop_last (suc n) zero (x ∷ xs) e h = absurd (omega arith)
drop_last (suc n) (suc k) (x ∷ xs) e h = drop_last n k xs (omega arith) (omega arith)

-- A frame of at least eleven octets, part by part.
parts :
    (bytes : List ℕ)
    → 11 ≤ length bytes
    → bytes
      ≡ octet bytes 0
        ∷ octet bytes 1
        ∷ octet bytes 2
        ∷ octet bytes 3
        ∷ octet bytes 4
        ∷ octet bytes 5
        ∷ octet bytes 6
        ∷ (body bytes ++ octet bytes (length bytes - 1) ∷ [])
parts bytes h =
    head_drop 0 bytes (omega arith)
    ∙ ap (λ (t : List ℕ). octet bytes 0 ∷ t)
        (head_drop 1 bytes (omega arith)
          ∙ ap (λ (t : List ℕ). octet bytes 1 ∷ t)
              (head_drop 2 bytes (omega arith)
                ∙ ap (λ (t : List ℕ). octet bytes 2 ∷ t)
                    (head_drop 3 bytes (omega arith)
                      ∙ ap (λ (t : List ℕ). octet bytes 3 ∷ t)
                          (head_drop 4 bytes (omega arith)
                            ∙ ap (λ (t : List ℕ). octet bytes 4 ∷ t)
                                (head_drop 5 bytes (omega arith)
                                  ∙ ap (λ (t : List ℕ). octet bytes 5 ∷ t)
                                      (head_drop 6 bytes (omega arith)
                                        ∙ ap (λ (t : List ℕ). octet bytes 6 ∷ t)
                                            (drop_last 7 (length bytes - 1) bytes (omega arith)
                                              (omega arith))))))))

new_message-ok :
    (a : DeviceAddress) (cs : List Command) (m : Message)
    → new_message a cs ≡ ok m
    → (1 ≤ length cs) × (length cs ≤ max_commands) × (record { address = a; commands = cs } ≡ m)
unfolding new_message
new_message-ok a cs m h =
    let (b1, k1) = refuse_if-ok (length cs == 0) _ _ m h in
    let (b2, k2) = refuse_if-ok (ltb max_commands (length cs)) _ _ m k1 in
    (positive (length cs) b1, ltb_false→le _ _ b2, ok_inj _ m _ refl k2)
  where
    positive : (n : ℕ) → (n == 0) ≡ false → 1 ≤ n
    positive n b = ground arith

-- Whatever decodes is what its message encodes to, octet for octet, and the message is one that the
-- constructors accept.
pub decode_canonical :
    (bytes : List ℕ) (m : Message) → decode bytes ≡ ok m → IsMessage m × (encode m ≡ bytes)
unfolding decode
decode_canonical bytes m h =
    let (long, k1) = refuse_if-ok (ltb (length bytes) (7 + 3 + 1)) _ _ m h in
    let (start, k2) = refuse_if-ok (not (octet bytes 0 == sysex_start)) _ _ m k1 in
    let (end, k3) = refuse_if-ok (not (octet bytes (length bytes - 1) == sysex_end)) _ _ m k2 in
    let (maker, k4) = refuse_if-ok (not (is_aphex bytes)) _ _ m k3 in
    let (even, k5) = refuse_if-ok (not (length (body bytes) % 3 == 0)) _ _ m k4 in
    let (address, ea, k6) =
      >>=-ok (new_address (octet bytes 4) (octet bytes 5) (octet bytes 6)) _ m k5 in
    let (commands, ec, k7) = >>=-ok (commands_of (body bytes)) _ m k6 in
    let a = new_address-ok _ _ _ address ea in
    let cs = commands_of-ok (body bytes) (length (body bytes) / 3) commands (thirds _ even) ec in
    let made = new_message-ok address commands m k7 in
    subst (λ (m : Message). IsMessage m × (encode m ≡ bytes)) made.2
      (
        record { address = a.0; commands = cs.0; some_commands = made.0; few_commands = made.1 },
        rebuilt address commands (ltb_false→le _ _ long) (same _ _ start) (same _ _ end) (id maker)
            a.1 a.2 a.3 cs.1,
      )
  where
    thirds : (n : ℕ) → not (n % 3 == 0) ≡ false → n ≡ 3 * (n / 3)
    thirds n e = ground arith

    same : (x y : ℕ) → not (x == y) ≡ false → x ≡ y
    same x y e = ground arith

    id :
        not (is_aphex bytes) ≡ false
        → (octet bytes 1 ≡ 0) × (octet bytes 2 ≡ 0) × (octet bytes 3 ≡ 56)
    id e = equal (octet bytes 1) (octet bytes 2) (octet bytes 3) e
      where
        equal :
            (x y z : ℕ) → not (x == 0 && y == 0 && z == 56) ≡ false → (x ≡ 0) × (y ≡ 0) × (z ≡ 56)
        equal x y z e = ground arith

    rebuilt :
        (address : DeviceAddress) (commands : List Command)
        → 11 ≤ length bytes
        → octet bytes 0 ≡ sysex_start
        → octet bytes (length bytes - 1) ≡ sysex_end
        → (octet bytes 1 ≡ 0) × (octet bytes 2 ≡ 0) × (octet bytes 3 ≡ 56)
        → address.midi_channel ≡ octet bytes 4
        → address.midi_device ≡ octet bytes 5
        → address.net_number ≡ octet bytes 6
        → all_bytes commands ≡ body bytes
        → encode (record { address = address; commands = commands }) ≡ bytes
    rebuilt address commands long start end maker x y z cs =
        unfold encode in
        rw (cs, x, y, z)
          (sym (parts bytes long ∙ (rw (start, end, maker.0, maker.1, maker.2) refl)))
