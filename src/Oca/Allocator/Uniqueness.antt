-- ===== src/Oca/Allocator/Uniqueness.antt =====
-- Object numbers of ono.rs are stable and unique within a run.
use dante_babel_box.Prelude.{
  ◌+◌, ◌^◌, ◌≤◌, ◌<◌, Bool, true, false, Option, none, some, List, [], ◌∷◌, ◌≡◌, ◌↔◌, ◌⊎◌, inl, inr,
  refl, sym, ◌∙◌, arith, length, eq_iff, if◌then◌else◌,
}
use mathlib.Core.Path.{subst, ap}
use dante_babel_box.Prelude.Maps.{lookup, insert, lookup-insert}
use dante_babel_box.Oca.{Ono}
use dante_babel_box.Oca.Allocator.{
  Key, key_eq, OnoAllocator, new, allocate_found, allocate_key, allocate_all,
}

key_eq_iff : (a b : Key) → (key_eq a b ≡ true) ↔ (a ≡ b)
unfolding key_eq
key_eq_iff a b =
    ground (arith, eq_iff a.device_id b.device_id, eq_iff a.class b.class, eq_iff a.role b.role)

-- Numbers handed out are from 1 up to the next one, and no two keys have the same.
record IsAllocator (a : OnoAllocator) : Type 0 where
  positive : 1 ≤ a.next
  issued : (k : Key) (o : Ono) → lookup key_eq k a.assigned ≡ some o → (1 ≤ o) × (o < a.next)
  unique :
      (k l : Key) (o : Ono)
      → lookup key_eq k a.assigned ≡ some o
      → lookup key_eq l a.assigned ≡ some o
      → k ≡ l

new-IsAllocator : IsAllocator new
unfolding new lookup
new-IsAllocator = record {
  positive = omega arith;
  issued = λ k o h. absurd (empty o h);
  unique = λ k l o h. absurd (empty o h);
}
  where
    empty : (o : Ono) → none ≡ some o → ⊥
    empty o h = grind arith

lookup-insert_key :
    (a : OnoAllocator) (k j : Key) (v : Ono)
    → lookup key_eq j (insert key_eq k v a.assigned)
      ≡ (if key_eq k j then some v else lookup key_eq j a.assigned)
lookup-insert_key a k j v = lookup-insert key_eq key_eq_iff k j v a.assigned

-- Where a key is found after an insertion: it is the new one, or it was there.
inserted :
    (a : OnoAllocator) (k j : Key) (v o : Ono)
    → lookup key_eq j (insert key_eq k v a.assigned) ≡ some o
    → ((k ≡ j) × (v ≡ o)) ⊎ (lookup key_eq j a.assigned ≡ some o)
inserted a k j v o h = split (key_eq k j) refl
  where
    found : (if key_eq k j then some v else lookup key_eq j a.assigned) ≡ some o
    found = sym (lookup-insert_key a k j v) ∙ h

    split :
        (same : Bool)
        → key_eq k j ≡ same
        → ((k ≡ j) × (v ≡ o)) ⊎ (lookup key_eq j a.assigned ≡ some o)
    split true e = inl ((key_eq_iff k j).0 e, value (rw (e, if◌then◌else◌) at found))
      where
        value : some v ≡ some o → v ≡ o
        value q = grind arith
    split false e = inr (rw (e, if◌then◌else◌) at found)

allocate_found-IsAllocator :
    (a : OnoAllocator) (k : Key) (found : Option Ono)
    → a.next + 1 < 2 ^ 32
    → IsAllocator a
    → IsAllocator (allocate_found a k found).0
unfolding allocate_found
allocate_found-IsAllocator a k (some o) small h = h
allocate_found-IsAllocator a k none small h = record {
  positive = omega (arith, small);
  issued = λ j o e. elim (inserted a k j a.next o e) [
    | inl (_, q) ↦ omega (arith, q, small, h.positive)
    | inr old ↦ let b = h.issued j o old in omega (arith, b.0, b.1, small)
  ];
  unique = λ j l o e f. elim (inserted a k j a.next o e) [
    | inl (p, q) ↦ elim (inserted a k l a.next o f) [
      | inl (p', q') ↦ sym p ∙ p'
      | inr old ↦ absurd (omega (arith, q, (h.issued l o old).1))
    ]
    | inr old ↦ elim (inserted a k l a.next o f) [
      | inl (p', q') ↦ absurd (omega (arith, q', (h.issued j o old).1))
      | inr old' ↦ h.unique j l o old old'
    ]
  ];
}

-- The next number grows by one at most.
next-allocate_found :
    (a : OnoAllocator) (k : Key) (found : Option Ono)
    → (allocate_found a k found).0.next ≤ a.next + 1
unfolding allocate_found
next-allocate_found a k none = omega arith
next-allocate_found a k (some o) = omega arith

allocate_all-IsAllocator :
    (ks : List Key) (a : OnoAllocator)
    → a.next + length ks < 2 ^ 32
    → IsAllocator a
    → IsAllocator (allocate_all a ks) × ((allocate_all a ks).next ≤ a.next + length ks)
unfolding allocate_all allocate_key
allocate_all-IsAllocator [] a small h = (h, omega arith)
allocate_all-IsAllocator (k ∷ ks) a small h =
    let found = lookup key_eq k a.assigned in
    let grown = next-allocate_found a k found in
    let rest =
      allocate_all-IsAllocator ks (allocate_found a k found).0 (omega (arith, grown, small))
        (allocate_found-IsAllocator a k found (omega (arith, small)) h) in
    (rest.0, omega (arith, rest.1, grown))

-- A key that has its number keeps it.
allocate_found-keeps :
    (a : OnoAllocator) (k j : Key) (o : Ono) (found : Option Ono)
    → lookup key_eq k a.assigned ≡ found
    → lookup key_eq j a.assigned ≡ some o
    → lookup key_eq j (allocate_found a k found).0.assigned ≡ some o
unfolding allocate_found
allocate_found-keeps a k j o (some p) e h = h
allocate_found-keeps a k j o none e h = lookup-insert_key a k j a.next ∙ other (key_eq k j) refl
  where
    clash : key_eq k j ≡ true → ⊥
    clash q =
        nothing (lookup key_eq j a.assigned)
          (subst (λ i. lookup key_eq i a.assigned ≡ none) ((key_eq_iff k j).0 q) e) h
      where
        nothing : (r : Option Ono) → r ≡ none → r ≡ some o → ⊥
        nothing r p q = grind arith

    other :
        (same : Bool)
        → key_eq k j ≡ same
        → (if same then some a.next else lookup key_eq j a.assigned) ≡ some o
    other true q = absurd (clash q)
    other false q = h

allocate_all-keeps :
    (ks : List Key) (a : OnoAllocator) (j : Key) (o : Ono)
    → lookup key_eq j a.assigned ≡ some o
    → lookup key_eq j (allocate_all a ks).assigned ≡ some o
unfolding allocate_all allocate_key
allocate_all-keeps [] a j o h = h
allocate_all-keeps (k ∷ ks) a j o h =
    allocate_all-keeps ks _ j o (allocate_found-keeps a k j o (lookup key_eq k a.assigned) refl h)

allocate_found-holds :
    (a : OnoAllocator) (k : Key) (found : Option Ono)
    → lookup key_eq k a.assigned ≡ found
    → lookup key_eq k (allocate_found a k found).0.assigned ≡ some (allocate_found a k found).1
unfolding allocate_found
allocate_found-holds a k (some o) e = e
allocate_found-holds a k none e =
    lookup-insert_key a k k a.next ∙ (rw ((key_eq_iff k k).1 refl) refl)

again :
    (a : OnoAllocator) (k l : Key) (o : Ono) (found : Option Ono)
    → IsAllocator a
    → lookup key_eq k a.assigned ≡ some o
    → lookup key_eq l a.assigned ≡ found
    → (allocate_found a l found).1 ≡ o
    → l ≡ k
unfolding allocate_found
again a k l o (some p) h e f q = h.unique l k o (f ∙ ap some q) e
again a k l o none h e f q = absurd (omega (arith, q, (h.issued k o e).1))

-- Two requests in a run of fewer than 2^32 - 2 requests get the same number exactly when they are for
-- the same key, whatever is asked for before the first and between the two; the number is not 0.
pub allocate_key_unique :
    (before between : List Key) (k l : Key)
    → length before + length between + 3 < 2 ^ 32
    → (((allocate_key (allocate_all (allocate_key (allocate_all new before) k).0 between) l).1
          ≡ (allocate_key (allocate_all new before) k).1)
        ↔ (l ≡ k))
      × (1 ≤ (allocate_key (allocate_all new before) k).1)
unfolding allocate_key
allocate_key_unique before between k l small = ((only, same), (final.0.issued k first held).0)
  where
    start : OnoAllocator
    start = allocate_all new before

    started : IsAllocator start × (start.next ≤ 1 + length before)
    started =
        unfold new in allocate_all-IsAllocator before new (omega (arith, small)) new-IsAllocator

    middle : OnoAllocator
    middle = (allocate_found start k (lookup key_eq k start.assigned)).0

    first : Ono
    first = (allocate_found start k (lookup key_eq k start.assigned)).1

    final :
        IsAllocator (allocate_all middle between)
        × ((allocate_all middle between).next ≤ middle.next + length between)
    final =
        let grown = next-allocate_found start k (lookup key_eq k start.assigned) in
        allocate_all-IsAllocator between middle (omega (arith, small, started.1, grown)) (
          allocate_found-IsAllocator start k (lookup key_eq k start.assigned)
            (omega (arith, small, started.1)) started.0)

    held : lookup key_eq k (allocate_all middle between).assigned ≡ some first
    held =
        allocate_all-keeps between middle k first
          (allocate_found-holds start k (lookup key_eq k start.assigned) refl)

    only : (allocate_key (allocate_all middle between) l).1 ≡ first → l ≡ k
    only q =
        unfold allocate_key in again (allocate_all middle between) k l first _ final.0 held refl q

    same : l ≡ k → (allocate_key (allocate_all middle between) l).1 ≡ first
    same p =
        unfold allocate_key in
        subst
          (λ j.
            (allocate_found (allocate_all middle between) j
              (lookup key_eq j (allocate_all middle between).assigned)).1
            ≡ first)
          (sym p) (rw (held, allocate_found) refl)
