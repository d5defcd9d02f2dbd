-- ===== src/Blob/Within.antt =====
-- internal/blob/quota.go: writing never takes the store over its quota.
use tool_mesh.Prelude.{
  ℕ, ◌+◌, ◌≤◌, String, Bool, true, false, not, ◌&&◌, ◌||◌, Option, none, some, List, [], ◌∷◌, ◌==◌,
  if◌then◌else◌, ◌≡◌, refl, arith, sym, ap, subst,
}
use tool_mesh.Prelude.Int.{ℤ, pos, ◌+ℤ◌, ltb_ℤ, ◌≤ℤ◌, +ℤ_parts, pos_part, neg_part}
use tool_mesh.Blob.{
  Quota, BlobEntry, BlobStore, share, Refusal, fits_locked, add_if_fits, reserve, Chunk, WriteError,
  Written, write_file, write, stop_or, copy, stopped, finish_put, put_owned,
}
use tool_mesh.Blob.Counted.{
  Counts, TakesPart, part_of, counts_for, write-Counts, release-Counts, share_of_used_by,
  copy-Copied, whole_base,
}

-- More is counted, in total or for the owner, than the quota allows.
abbrev pub exceeds : Quota → String → ℤ → ℤ → Bool
exceeds q owner total of_owner =
    (ltb_ℤ (pos 0) q.max_total_bytes && ltb_ℤ q.max_total_bytes total)
    || (ltb_ℤ (pos 0) q.max_bytes_per_user
        && not (owner == "")
        && ltb_ℤ q.max_bytes_per_user of_owner)

exceeds_mono :
    (q : Quota) (owner : String) (a b c d : ℤ)
    → a ≤ℤ c
    → b ≤ℤ d
    → exceeds q owner c d ≡ false
    → exceeds q owner a b ≡ false
exceeds_mono q owner a b c d h k e = ground (arith, h, k, e)

fits-exceeds :
    (owner : String) (pending n : ℤ) (s : BlobStore)
    → fits_locked owner pending n s ≡ none
    → exceeds s.quota owner (s.used +ℤ n) (share owner s +ℤ n) ≡ false
unfolding fits_locked
fits-exceeds owner pending n s h = ground (arith, h)

grows : (a b : ℤ) (n k m : ℕ) → a ≡ b +ℤ pos n → m ≤ n + k → b +ℤ pos m ≤ℤ a +ℤ pos k
grows a b n k m h e = ground (
  arith,
  e,
  ap pos_part h,
  ap neg_part h,
  +ℤ_parts b (pos n),
  +ℤ_parts b (pos m),
  +ℤ_parts a (pos k),
)

part_of_grows :
    (owner : String) (n k m : ℕ) → m ≤ n + k → part_of owner owner m ≤ part_of owner owner n + k
part_of_grows owner n k m h = ground (arith, h)

no_more : (counted : Bool) (b : ℤ) → b +ℤ pos (if counted then 0 else 0) ≤ℤ b
no_more true b = ground (arith, +ℤ_parts b (pos 0))
no_more false b = ground (arith, +ℤ_parts b (pos 0))

add_if_fits-refusal :
    (refusal : Option Refusal) (owner : String) (n : ℤ) (s : BlobStore)
    → (add_if_fits refusal owner n s).0 ≡ refusal
add_if_fits-refusal none owner n s = refl
add_if_fits-refusal (some e) owner n s = refl

module _ (owner : String) (base : BlobStore) (whole : pos 0 ≤ℤ share owner base) where
  -- `n` bytes more for the owner stay within the quota.
  abbrev InQuota : ℕ → Type 0
  InQuota n =
      exceeds base.quota owner (base.used +ℤ pos n)
        (share owner base +ℤ pos (part_of owner owner n))
      ≡ false

  Counts-within :
      (n : ℕ) (s : BlobStore)
      → Counts owner owner base n s
      → InQuota n
      → exceeds s.quota owner s.used (share owner s) ≡ false
  Counts-within n s counted inside = rw (counted.of_asked, counted.total, counted.quota) inside

  write_file-InQuota :
      (reserved : ℕ) (c : Chunk) (refusal : Option Refusal) (s s1 : BlobStore)
      → c.taken ≤ c.size
      → Counts owner owner base reserved s
      → fits_locked owner (pos reserved) (pos c.size) s ≡ refusal
      → InQuota reserved
      → InQuota (write_file owner reserved c refusal s1).reserved
  unfolding write_file
  write_file-InQuota reserved c (some e) s s1 h counted f inside = inside
  write_file-InQuota reserved c none s s1 h counted f inside =
      exceeds_mono base.quota owner _ _ (s.used +ℤ pos c.size) (share owner s +ℤ pos c.size)
        (grows s.used base.used reserved c.size (reserved + c.taken) counted.total (omega arith))
        (grows (share owner s) (share owner base) (part_of owner owner reserved) c.size
          (part_of owner owner (reserved + c.taken)) counted.of_asked
          (part_of_grows owner reserved c.size (reserved + c.taken) (omega arith)))
        (subst
          (λ (q : Quota).
            exceeds q owner (s.used +ℤ pos c.size) (share owner s +ℤ pos c.size) ≡ false)
          counted.quota (fits-exceeds owner (pos reserved) (pos c.size) s f))

  write-InQuota :
      (reserved : ℕ) (c : Chunk) (s : BlobStore)
      → c.taken ≤ c.size
      → Counts owner owner base reserved s
      → InQuota reserved
      → InQuota (write owner reserved c s).reserved
  unfolding write reserve
  write-InQuota reserved c s h counted inside =
      let refusal = fits_locked owner (pos reserved) (pos c.size) s in
      let r = add_if_fits refusal owner (pos c.size) s in
      write_file-InQuota reserved c r.0 s r.1 h counted
        (sym (add_if_fits-refusal refusal owner (pos c.size) s)) inside

  stop_or-InQuota :
      (stop : Option WriteError) (total : ℕ) (w rest : Written)
      → InQuota w.reserved
      → InQuota rest.reserved
      → InQuota (stop_or stop total w rest).reserved
  stop_or-InQuota (some e) total w rest first more = first
  stop_or-InQuota none total w rest first more = more

  copy-InQuota :
      (broken : Bool) (cs : List Chunk) (total n : ℕ) (s : BlobStore)
      → TakesPart cs
      → Counts owner owner base n s
      → InQuota n
      → InQuota (copy owner broken cs total n s).reserved
  unfolding copy
  copy-InQuota broken [] total n s h counted inside = inside
  copy-InQuota broken (c ∷ cs) total n s (h, hs) counted inside =
      let w = write owner n c s in
      let now_inside = write-InQuota n c s h counted inside in
      let counted_too = (write-Counts owner owner base whole n c s h counted).0 in
      stop_or-InQuota (stopped c w) (total + w.count) w
        (copy owner broken cs (total + w.count) w.reserved w.store) now_inside
        (copy-InQuota broken cs (total + w.count) w.reserved w.store hs counted_too now_inside)

  finish_put-within :
      (id : String) (entry : ℤ → BlobEntry) (error : Option WriteError) (w : Written)
      → Counts owner owner base w.reserved w.store
      → InQuota 0
      → InQuota w.reserved
      → let s = (finish_put id entry owner error w).1 in
        exceeds s.quota owner s.used (share owner s) ≡ false
  unfolding finish_put
  finish_put-within id entry (some e) w counted before inside =
      Counts-within 0 _
        (release-Counts owner owner base whole w.store w.reserved 0 w.reserved counted
          (omega arith))
        before
  finish_put-within id entry none w counted before inside =
      rw (share_of_used_by owner (finish_put id entry owner none w).1 w.store refl)
        (Counts-within w.reserved w.store counted inside)

  -- Where the store is within its quota, in total and for the owner, whose share is not negative,
  -- it still is after a put of a blob for this owner, whatever the body gives, and whether or not
  -- the put succeeds. The file never takes more of a chunk than there is.
  pub put_owned_within :
      (id : String) (entry : ℤ → BlobEntry) (broken : Bool) (cs : List Chunk)
      → TakesPart cs
      → exceeds base.quota owner base.used (share owner base) ≡ false
      → let s = (put_owned id entry owner broken cs base).1 in
        exceeds s.quota owner s.used (share owner s) ≡ false
  unfolding put_owned
  put_owned_within id entry broken cs h inside =
      let w = copy owner broken cs 0 0 base in
      let nothing = whole_base owner owner base whole in
      let before : InQuota 0 =
        exceeds_mono base.quota owner _ _ base.used (share owner base) (no_more true base.used)
          (no_more (counts_for owner owner) (share owner base)) inside in
      finish_put-within id entry w.error w
        (copy-Copied owner owner base whole broken cs 0 0 base refl h nothing).0 before
        (copy-InQuota broken cs 0 0 base h nothing before)
