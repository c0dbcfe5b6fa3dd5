-- ===== src/Runtime/Accounts.antt =====
-- The byte accounts of a class in `rt_runtime` (src/rtmem.cpp): the counter of active bytes against the
-- buffers.
use programmable_retention_t.Prelude.{
  ℕ, ◌+◌, ◌≤◌, ◌<◌, true, false, ◌&&◌, [], ◌∷◌, none, some, ◌≡◌, refl, arith, if◌then◌else◌,
  RetentionClass, ephemeral, epoch, durable, same_class, same_class_iff, at, put, PerClass, Entries,
  lookup, insert, erase, IsUnique, total, insert-IsUnique, erase-IsUnique, total-insert_absent,
  total-insert_present, total-erase, infinite, add64, sub64, add64-eq, sub64-eq, inl, inr, ap,
  Bool-cases,
}
use programmable_retention_t.Runtime.Types.{Buffer, is_live}
use programmable_retention_t.Runtime.Maintenance.{moved_bytes}

-- The bytes that a buffer holds in a class.
abbrev pub weight : {A : Type 0} → RetentionClass → Buffer A → ℕ
weight c b = if is_live b.state && same_class b.retention_class c then b.size_bytes else 0

-- Every handle was given out before `next`.
abbrev pub IsBelow {ℓ} : {V : Type ℓ} → ℕ → Entries V → Type 0
IsBelow next [] = Unit {0}
IsBelow next ((key, value) ∷ rest) = (key < next) × IsBelow next rest

module _ {ℓ} {V : Type ℓ} where
  pub IsBelow-absent :
      (next : ℕ) (entries : Entries V) → IsBelow next entries → lookup next entries ≡ none
  unfolding lookup
  IsBelow-absent next [] h = refl
  IsBelow-absent next ((key, value) ∷ rest) h = ground (arith, IsBelow-absent next rest h.1)

  pub IsBelow-mono :
      (next later : ℕ) (entries : Entries V)
      → next ≤ later
      → IsBelow next entries
      → IsBelow later entries
  IsBelow-mono next later [] k h = tt
  IsBelow-mono next later ((key, value) ∷ rest) k h =
      ground (arith, IsBelow-mono next later rest k h.1)

  pub insert-IsBelow :
      (next h : ℕ) (v : V) (entries : Entries V)
      → h < next
      → IsBelow next entries
      → IsBelow next (insert h v entries)
  unfolding insert
  insert-IsBelow next h v [] k b = ground arith
  insert-IsBelow next h v ((key, value) ∷ rest) k b =
      ground (arith, insert-IsBelow next h v rest k b.1)

  pub lookup-IsBelow :
      (next h : ℕ) (v : V) (entries : Entries V)
      → IsBelow next entries
      → lookup h entries ≡ some v
      → h < next
  unfolding lookup
  lookup-IsBelow next h v [] b e = ground arith
  lookup-IsBelow next h v ((key, value) ∷ rest) b e =
      ground (arith, lookup-IsBelow next h v rest b.1)

  pub erase-IsBelow :
      (next h : ℕ) (entries : Entries V) → IsBelow next entries → IsBelow next (erase h entries)
  unfolding erase
  erase-IsBelow next h [] b = tt
  erase-IsBelow next h ((key, value) ∷ rest) b = ground (arith, erase-IsBelow next h rest b.1)

at-put :
    (c d : RetentionClass) (x : ℕ) (p : PerClass ℕ)
    → at c (put d x p) ≡ (if same_class d c then x else at c p)
at-put ephemeral ephemeral x p = refl
at-put ephemeral epoch x p = refl
at-put ephemeral durable x p = refl
at-put epoch ephemeral x p = refl
at-put epoch epoch x p = refl
at-put epoch durable x p = refl
at-put durable ephemeral x p = refl
at-put durable epoch x p = refl
at-put durable durable x p = refl

at-same_class : (c d : RetentionClass) (p : PerClass ℕ) → same_class d c ≡ true → at d p ≡ at c p
at-same_class c d p h = ap (λ k. at k p) ((same_class_iff d c).0 h)

-- The counter after a subtraction in the class `d`.
lowered :
    (c d : RetentionClass) (size : ℕ) (bytes : PerClass ℕ)
    → (if same_class d c then size else 0) ≤ at c bytes
    → at c bytes ≤ infinite
    → at c (put d (sub64 (at d bytes) size) bytes) + (if same_class d c then size else 0)
      ≡ at c bytes
lowered c d size bytes h k = elim (Bool-cases (same_class d c)) [
  | inl same ↦
      rw (at-put c d (sub64 (at d bytes) size) bytes, same, at-same_class c d bytes same)
        (ground (arith, sub64-eq (at c bytes) size))
  | inr other ↦ rw (at-put c d (sub64 (at d bytes) size) bytes, other) (omega arith)
]

-- The counter after an addition.
raised :
    (c d : RetentionClass) (size : ℕ) (bytes : PerClass ℕ)
    → at c bytes + (if same_class d c then size else 0) ≤ infinite
    → at c (put d (add64 (at d bytes) size) bytes)
      ≡ at c bytes + (if same_class d c then size else 0)
raised c d size bytes k = elim (Bool-cases (same_class d c)) [
  | inl same ↦
      rw (at-put c d (add64 (at d bytes) size) bytes, same, at-same_class c d bytes same)
        (ground (arith, add64-eq (at c bytes) size))
  | inr other ↦ rw (at-put c d (add64 (at d bytes) size) bytes, other) (omega arith)
]

module _ {A : Type 0} where
  -- The counter of a class with a capacity is the number of bytes its active buffers hold, and
  -- within the capacity.
  pub record Fits (c : RetentionClass) (limits bytes : PerClass ℕ) (heap : Entries (Buffer A))
      (next : ℕ) : Type 0 where
    pub unique : IsUnique heap
    pub below : IsBelow next heap
    pub counted : at c bytes ≡ total (weight c) heap
    pub within : at c bytes ≤ at c limits
    pub word : at c limits ≤ infinite
    pub limited : 0 < at c limits

  module _ (c : RetentionClass) (limits bytes : PerClass ℕ) (heap : Entries (Buffer A))
      (next : ℕ) where
    -- A buffer in the place of another.
    pub replace-Fits :
        (bytes' : PerClass ℕ) (h : ℕ) (b b' : Buffer A)
        → lookup h heap ≡ some b
        → at c bytes' + weight c b ≡ at c bytes + weight c b'
        → at c bytes' ≤ at c limits
        → Fits c limits bytes heap next
        → Fits c limits bytes' (insert h b' heap) next
    replace-Fits bytes' h b b' e k fits v = record {
      unique = insert-IsUnique h b' heap v.unique;
      below = insert-IsBelow next h b' heap (lookup-IsBelow next h b heap v.below e) v.below;
      counted = omega (arith, total-insert_present (weight c) h b' b heap e, v.counted);
      within = fits;
      word = v.word;
      limited = v.limited;
    }

    -- A change of a buffer that keeps what it holds.
    pub update-Fits :
        (h : ℕ) (b b' : Buffer A)
        → lookup h heap ≡ some b
        → weight c b ≡ weight c b'
        → Fits c limits bytes heap next
        → Fits c limits bytes (insert h b' heap) next
    update-Fits h b b' e k v = replace-Fits bytes h b b' e (omega arith) v.within v

    pub weight-le :
        (h : ℕ) (b : Buffer A)
        → lookup h heap ≡ some b
        → Fits c limits bytes heap next
        → weight c b ≤ at c bytes
    weight-le h b e v = omega (arith, total-erase (weight c) h b heap v.unique e, v.counted)

    -- An active buffer that gives its bytes back.
    pub release-Fits :
        (h : ℕ) (b b' : Buffer A)
        → lookup h heap ≡ some b
        → is_live b.state ≡ true
        → is_live b'.state ≡ false
        → Fits c limits bytes heap next
        → Fits c limits
            (put b.retention_class (sub64 (at b.retention_class bytes) b.size_bytes) bytes)
            (insert h b' heap)
            next
    release-Fits h b b' e live dead v =
        let held = weight-le h b e v in
        let change =
          lowered c b.retention_class b.size_bytes bytes (ground (arith, held))
            (omega (arith, v.within, v.word)) in
        replace-Fits _ h b b' e (ground (arith, change)) (omega (arith, change, v.within)) v

    -- An active buffer that moves to a class with room for it.
    pub move-Fits :
        (h : ℕ) (b b' : Buffer A) (d : RetentionClass)
        → lookup h heap ≡ some b
        → is_live b.state ≡ true
        → is_live b'.state ≡ true
        → b'.retention_class ≡ d
        → b'.size_bytes ≡ b.size_bytes
        → (d ≡ c → at c bytes + b.size_bytes ≤ at c limits)
        → Fits c limits bytes heap next
        → Fits c limits (moved_bytes bytes b.retention_class d b.size_bytes) (insert h b' heap) next
    move-Fits h b b' d e live live' class size room v =
        let held = weight-le h b e v in
        let low =
          lowered c b.retention_class b.size_bytes bytes (ground (arith, held))
            (omega (arith, v.within, v.word)) in
        let less = put b.retention_class (sub64 (at b.retention_class bytes) b.size_bytes) bytes in
        let fits : at c less + (if same_class d c then b.size_bytes else 0) ≤ at c limits =
          elim (Bool-cases (same_class d c)) [
            | inl same ↦ rw same (omega (arith, low, room ((same_class_iff d c).0 same)))
            | inr apart ↦ rw apart (omega (arith, low, v.within))
          ] in
        let up = raised c d b.size_bytes less (omega (arith, fits, v.word)) in
        replace-Fits _ h b b' e (rw (live, live', class, size) (omega (arith, low, up)))
          (omega (arith, up, fits)) v

    -- A new buffer in a class with room for it.
    pub add-Fits :
        (b : Buffer A)
        → is_live b.state ≡ true
        → (b.retention_class ≡ c → at c bytes + b.size_bytes ≤ at c limits)
        → Fits c limits bytes heap next
        → Fits c limits
            (put b.retention_class (add64 (at b.retention_class bytes) b.size_bytes) bytes)
            (insert next b heap)
            (next + 1)
    add-Fits b live room v =
        let fits : at c bytes + (if same_class b.retention_class c then b.size_bytes else 0)
            ≤ at c limits =
          elim (Bool-cases (same_class b.retention_class c)) [
            | inl same ↦ rw same (room ((same_class_iff b.retention_class c).0 same))
            | inr apart ↦ rw apart (omega (arith, v.within))
          ] in
        let up = raised c b.retention_class b.size_bytes bytes (omega (arith, fits, v.word)) in
        record {
          unique = insert-IsUnique next b heap v.unique;
          below =
              insert-IsBelow (next + 1) next b heap (omega arith)
                (IsBelow-mono next (next + 1) heap (omega arith) v.below);
          counted =
              rw
                (
                  up,
                  total-insert_absent (weight c) next b heap (IsBelow-absent next heap v.below),
                  live,
                  v.counted,
                )
                (omega arith);
          within = omega (arith, up, fits);
          word = v.word;
          limited = v.limited;
        }

    -- A buffer that holds nothing, taken away.
    pub erase-Fits :
        (h : ℕ) (b : Buffer A)
        → lookup h heap ≡ some b
        → weight c b ≡ 0
        → Fits c limits bytes heap next
        → Fits c limits bytes (erase h heap) next
    erase-Fits h b e k v = record {
      unique = erase-IsUnique h heap v.unique;
      below = erase-IsBelow next h heap v.below;
      counted = omega (arith, total-erase (weight c) h b heap v.unique e, v.counted, k);
      within = v.within;
      word = v.word;
      limited = v.limited;
    }

    -- A handle that is given out.
    pub later-Fits : Fits c limits bytes heap next → Fits c limits bytes heap (next + 1)
    later-Fits v = record {
      unique = v.unique;
      below = IsBelow-mono next (next + 1) heap (omega arith) v.below;
      counted = v.counted;
      within = v.within;
      word = v.word;
      limited = v.limited;
    }
