-- ===== src/Blob/Counted.antt =====
-- internal/blob: what a blob that is written adds to the counts, for one caller at a time.
use tool_mesh.Prelude.{
  ℕ, ◌+◌, ◌-◌, ◌≤◌, ok, err, String, Bool, true, false, not, ◌&&◌, Option, none, some, List, [],
  ◌∷◌, ◌==◌, eq_iff, if◌then◌else◌, ltb, ◌≡◌, refl, arith, sym, ap, ◌∙◌, Bool-cases, inl, inr,
  subst,
}
use tool_mesh.Prelude.Int.{
  ℤ, pos, ◌+ℤ◌, ◌-ℤ◌, ltb_ℤ, ◌≤ℤ◌, +ℤ_parts, eq_of_parts, pos_part, neg_part,
}
use tool_mesh.Prelude.Dict.{lookup, lookup-insert, lookup-insert_self, lookup-remove}
use tool_mesh.Blob.{
  BlobEntry, BlobStore, share, or_zero, Refusal, fits_locked, add_locked, reserve, release, Chunk,
  WriteError, Written, write, write_file, add_if_fits, stop_or, copy, stopped, finish_put,
  put_owned, Put,
}

-- Who a blob of `owner` counts for.
abbrev pub counts_for : String → String → Bool
counts_for owner asked = owner == asked && not (owner == "")

-- The share of `asked` in `n` bytes of a blob of `owner`.
abbrev pub part_of : String → String → ℕ → ℕ
part_of owner asked n = if counts_for owner asked then n else 0

add_locked-used :
    (owner : String) (n : ℤ) (s : BlobStore) → (add_locked owner n s).used ≡ s.used +ℤ n
unfolding add_locked
add_locked-used owner n s = refl

add_locked-rest :
    (owner : String) (n : ℤ) (s : BlobStore)
    → ((add_locked owner n s).blobs ≡ s.blobs) × ((add_locked owner n s).quota ≡ s.quota)
unfolding add_locked
add_locked-rest owner n s = (refl, refl)

positive_or_zero : (v : ℤ) → pos 0 ≤ℤ v → ltb_ℤ (pos 0) v ≡ false → pos 0 ≡ v
positive_or_zero v h p = ground (arith, h, p)

add_locked-share :
    (owner asked : String) (n : ℤ) (s : BlobStore)
    → pos 0 ≤ℤ (if counts_for owner asked then share asked s +ℤ n else pos 0)
    → share asked (add_locked owner n s)
      ≡ (if counts_for owner asked then share asked s +ℤ n else share asked s)
unfolding share add_locked
add_locked-share owner asked n s h =
    let v = share owner s +ℤ n in
    ground (
      arith,
      h,
      eq_iff owner asked,
      lookup-insert owner asked v s.used_by,
      lookup-remove owner asked s.used_by,
      positive_or_zero v,
    )

-- `s` counts what `base` counts, in total and for `asked`, and `n` bytes of a blob of `owner` more.
pub record Counts (owner asked : String) (base : BlobStore) (n : ℕ) (s : BlobStore) : Type 0 where
  pub total : s.used ≡ base.used +ℤ pos n
  pub of_asked : share asked s ≡ share asked base +ℤ pos (part_of owner asked n)
  pub blobs : s.blobs ≡ base.blobs
  pub quota : s.quota ≡ base.quota

moved : (a b : ℤ) (d : ℤ) (n m : ℕ) → a ≡ b +ℤ pos n → pos m ≡ pos n +ℤ d → a +ℤ d ≡ b +ℤ pos m
moved a b d n m h e = eq_of_parts (a +ℤ d) (b +ℤ pos m) (
    ground (
      arith,
      h,
      e,
      +ℤ_parts a d,
      +ℤ_parts b (pos m),
      +ℤ_parts b (pos n),
      +ℤ_parts (pos n) d,
      ap pos_part h,
      ap neg_part h,
      ap pos_part e,
      ap neg_part e,
    ))

added_up : (n k : ℕ) → pos (n + k) ≡ pos n +ℤ pos k
unfolding ◌+ℤ◌
added_up n k = ground arith

taken_back : (n m k : ℕ) → n ≡ m + k → pos m ≡ pos n +ℤ (pos 0 -ℤ pos k)
unfolding ◌+ℤ◌ ◌-ℤ◌
taken_back n m k h = ground (arith, h)

moved_part :
    (counted : Bool) (a b d : ℤ) (n m : ℕ)
    → pos 0 ≤ℤ b
    → a ≡ b +ℤ pos (if counted then n else 0)
    → pos m ≡ pos n +ℤ d
    → (pos 0 ≤ℤ (if counted then a +ℤ d else pos 0))
      × ((if counted then a +ℤ d else a) ≡ b +ℤ pos (if counted then m else 0))
moved_part true a b d n m h same e =
    let next = moved a b d n m same e in
    (ground (arith, h, +ℤ_parts b (pos m), ap pos_part next, ap neg_part next), next)
moved_part false a b d n m h same e = (omega arith, same)

plus_nothing : (counted : Bool) (a : ℤ) → a ≡ a +ℤ pos (if counted then 0 else 0)
plus_nothing true a = eq_of_parts a (a +ℤ pos 0) (ground (arith, +ℤ_parts a (pos 0)))
plus_nothing false a = eq_of_parts a (a +ℤ pos 0) (ground (arith, +ℤ_parts a (pos 0)))

pub share_of_used_by :
    (asked : String) (s t : BlobStore) → s.used_by ≡ t.used_by → share asked s ≡ share asked t
unfolding share
share_of_used_by asked s t h = ap (λ (m : List (String × ℤ)). or_zero (lookup asked m)) h

-- The file never takes more of a chunk than there is.
abbrev pub TakesPart : List Chunk → Type 0
TakesPart [] = Unit
TakesPart (c ∷ cs) = (c.taken ≤ c.size) × TakesPart cs

module _ (owner asked : String) (base : BlobStore) where
  -- What a put of a blob leaves: the blob with its size, counted; or nothing, where it failed.
  abbrev pub PutCounts : String → (ℤ → BlobEntry) → Put → Type 0
  PutCounts id entry (ok size, s) =
      (s.used ≡ base.used +ℤ pos size)
      × (share asked s ≡ share asked base +ℤ pos (part_of owner asked size))
      × (lookup id s.blobs ≡ some (entry (pos size)))
  PutCounts id entry (err e, s) =
      (s.used ≡ base.used) × (share asked s ≡ share asked base) × (s.blobs ≡ base.blobs)

module _ (owner asked : String) (base : BlobStore) (whole : pos 0 ≤ℤ share asked base) where
  add_locked-Counts :
      (s : BlobStore) (n m : ℕ) (d : ℤ)
      → Counts owner asked base n s
      → pos m ≡ pos n +ℤ d
      → Counts owner asked base m (add_locked owner d s)
  add_locked-Counts s n m d c e =
      let (safe, same) =
        moved_part (counts_for owner asked) (share asked s) (share asked base) d n m whole
          c.of_asked e in
      record {
        total = add_locked-used owner d s ∙ moved s.used base.used d n m c.total e;
        of_asked = add_locked-share owner asked d s safe ∙ same;
        blobs = (add_locked-rest owner d s).0 ∙ c.blobs;
        quota = (add_locked-rest owner d s).1 ∙ c.quota;
      }

  pub release-Counts :
      (s : BlobStore) (n m k : ℕ)
      → Counts owner asked base n s
      → n ≡ m + k
      → Counts owner asked base m (release owner (pos k) s)
  unfolding release
  release-Counts s n m k c e = add_locked-Counts s n m (pos 0 -ℤ pos k) c (taken_back n m k e)

  abbrev reserved_after : Option Refusal → ℕ → ℕ → ℕ
  reserved_after none n k = n + k
  reserved_after (some e) n k = n

  add_if_fits-Counts :
      (refusal : Option Refusal) (s : BlobStore) (n k : ℕ)
      → Counts owner asked base n s
      → let r = add_if_fits refusal owner (pos k) s in
        Counts owner asked base (reserved_after r.0 n k) r.1
  add_if_fits-Counts (some e) s n k counted = counted
  add_if_fits-Counts none s n k counted =
      add_locked-Counts s n (n + k) (pos k) counted (added_up n k)

  write_file-Counts :
      (reserved : ℕ) (c : Chunk) (refusal : Option Refusal) (s : BlobStore)
      → c.taken ≤ c.size
      → Counts owner asked base (reserved_after refusal reserved c.size) s
      → let w = write_file owner reserved c refusal s in
        Counts owner asked base w.reserved w.store × (w.reserved ≡ reserved + w.count)
  unfolding write_file
  write_file-Counts reserved c (some e) s h counted = (counted, omega arith)
  write_file-Counts reserved c none s h counted = elim (Bool-cases (ltb c.taken c.size)) [
    | inl short ↦ rw (short) (
      release-Counts s (reserved + c.size) (reserved + c.taken) (c.size - c.taken) counted
          (omega arith),
      refl,
    )
    | inr full ↦
        let even : c.size ≡ c.taken = ground (arith, full, h) in
        rw (full) (subst (λ (k : ℕ). Counts owner asked base (reserved + k) s) even counted, refl)
  ]

  pub write-Counts :
      (reserved : ℕ) (c : Chunk) (s : BlobStore)
      → c.taken ≤ c.size
      → Counts owner asked base reserved s
      → let w = write owner reserved c s in
        Counts owner asked base w.reserved w.store × (w.reserved ≡ reserved + w.count)
  unfolding write reserve
  write-Counts reserved c s h counted =
      let r = reserve owner (pos reserved) (pos c.size) s in
      write_file-Counts reserved c r.0 r.1 h (
        add_if_fits-Counts (fits_locked owner (pos reserved) (pos c.size) s) s reserved c.size
          counted)

  abbrev Copied : Written → Type 0
  Copied w = Counts owner asked base w.reserved w.store × (w.count ≡ w.reserved)

  stop_or-Copied :
      (stop : Option WriteError) (total : ℕ) (w rest : Written)
      → Counts owner asked base w.reserved w.store
      → total ≡ w.reserved
      → Copied rest
      → Copied (stop_or stop total w rest)
  stop_or-Copied (some e) total w rest counted same copied = (counted, same)
  stop_or-Copied none total w rest counted same copied = copied

  pub copy-Copied :
      (broken : Bool) (cs : List Chunk) (total n : ℕ) (s : BlobStore)
      → total ≡ n
      → TakesPart cs
      → Counts owner asked base n s
      → Copied (copy owner broken cs total n s)
  unfolding copy
  copy-Copied broken [] total n s e h counted = (counted, e)
  copy-Copied broken (c ∷ cs) total n s e (h, hs) counted =
      let w = write owner n c s in
      let (next, same) = write-Counts n c s h counted in
      let written : total + w.count ≡ w.reserved = omega arith in
      stop_or-Copied (stopped c w) (total + w.count) w
        (copy owner broken cs (total + w.count) w.reserved w.store) next written
        (copy-Copied broken cs (total + w.count) w.reserved w.store written hs next)

  finish_put-PutCounts :
      (id : String) (entry : ℤ → BlobEntry) (error : Option WriteError) (w : Written)
      → Copied w
      → PutCounts owner asked base id entry (finish_put id entry owner error w)
  unfolding finish_put
  finish_put-PutCounts id entry (some e) w (counted, same) =
      let back = release-Counts w.store w.reserved 0 w.reserved counted (omega arith) in
      (
        back.total ∙ sym (plus_nothing true base.used),
        back.of_asked ∙ sym (plus_nothing (counts_for owner asked) (share asked base)),
        back.blobs,
      )
  finish_put-PutCounts id entry none w (counted, same) = (
    rw (same) counted.total,
    rw (same) (
        share_of_used_by asked (finish_put id entry owner none w).1 w.store refl
        ∙ counted.of_asked),
    lookup-insert_self id (entry (pos w.count)) w.store.blobs,
  )

  pub whole_base : Counts owner asked base 0 base
  whole_base = record {
    total = plus_nothing true base.used;
    of_asked = plus_nothing (counts_for owner asked) (share asked base);
    blobs = refl;
    quota = refl;
  }

  -- Where the share of a user is not negative before it, a put of a blob that succeeds adds exactly
  -- the blob's size to the total and, where the blob is this user's, to the share, and stores the
  -- blob with that size; one that fails, at whatever chunk and for whatever reason, leaves the total,
  -- the share and the blobs as they were. The file never takes more of a chunk than there is.
  pub put_owned-PutCounts :
      (id : String) (entry : ℤ → BlobEntry) (broken : Bool) (cs : List Chunk)
      → TakesPart cs
      → PutCounts owner asked base id entry (put_owned id entry owner broken cs base)
  unfolding put_owned
  put_owned-PutCounts id entry broken cs h =
      let w = copy owner broken cs 0 0 base in
      finish_put-PutCounts id entry w.error w (copy-Copied broken cs 0 0 base refl h whole_base)
