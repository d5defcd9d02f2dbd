-- ===== src/Blob.antt =====
-- internal/blob/quota.go and the writing of a blob in internal/blob/store.go: what the store counts
-- against its quota. The file system is a parameter, what each write of a chunk to the file takes.
pub mod Counted
pub mod Within
pub mod Tests
use tool_mesh.Prelude.{
  ℕ, ◌+◌, ◌-◌, Result, ok, err, String, Bool, true, false, not, ◌&&◌, Option, none, some, List, [],
  ◌∷◌, ◌==◌, if◌then◌else◌, ltb, eqb,
}
use tool_mesh.Prelude.Int.{ℤ, pos, ◌+ℤ◌, ◌-ℤ◌, ltb_ℤ}
use tool_mesh.Prelude.Dict.{lookup, insert, remove}

-- MaxTotalBytes and MaxBytesPerUser
pub record Quota : Type 0 where
  pub max_total_bytes : ℤ
  pub max_bytes_per_user : ℤ

pub record BlobEntry : Type 0 where
  pub content_type : String
  pub size : ℤ
  pub filename : String
  pub owner : String
  pub expires_at : ℕ

pub record BlobStore : Type 0 where
  pub blobs : List (String × BlobEntry)
  pub quota : Quota
  pub used : ℤ
  pub used_by : List (String × ℤ)

abbrev pub or_zero : Option ℤ → ℤ
or_zero none = pos 0
or_zero (some n) = n

-- usedBy[owner]; Store.Usage gives it together with `used`.
unfoldable pub share : String → BlobStore → ℤ
unfolding lookup
share owner s = or_zero (lookup owner s.used_by)

-- The two errors that wrap ErrQuotaExceeded, with the limit and the bytes of other blobs.
pub data Refusal : Type 0 where
  over_total over_share : ℤ → ℤ → Refusal

-- Store.fitsLocked; `none` is no error.
unfoldable pub fits_locked : String → ℤ → ℤ → BlobStore → Option Refusal
unfolding share ◌+ℤ◌ ◌-ℤ◌
fits_locked owner pending n s =
    let total = s.quota.max_total_bytes in
    let per_user = s.quota.max_bytes_per_user in
    if ltb_ℤ (pos 0) total && ltb_ℤ total (s.used +ℤ n)
    then some (over_total total (s.used -ℤ pending))
    else if ltb_ℤ (pos 0) per_user && not (owner == "") && ltb_ℤ per_user (share owner s +ℤ n)
    then some (over_share per_user (share owner s -ℤ pending))
    else none

-- Store.addLocked
unfoldable pub add_locked : String → ℤ → BlobStore → BlobStore
unfolding share ◌+ℤ◌ insert remove
add_locked owner n s =
    let v = share owner s +ℤ n in
    record s {
      used = s.used +ℤ n;
      used_by =
          if owner == ""
          then s.used_by
          else if ltb_ℤ (pos 0) v
          then insert owner v s.used_by
          else remove owner s.used_by;
    }

abbrev pub add_if_fits : Option Refusal → String → ℤ → BlobStore → Option Refusal × BlobStore
add_if_fits (some e) owner n s = (some e, s)
add_if_fits none owner n s = (none, add_locked owner n s)

-- Store.reserve
unfoldable pub reserve : String → ℤ → ℤ → BlobStore → Option Refusal × BlobStore
unfolding fits_locked
reserve owner pending n s = add_if_fits (fits_locked owner pending n s) owner n s

-- Store.release
unfoldable pub release : String → ℤ → BlobStore → BlobStore
unfolding add_locked ◌-ℤ◌
release owner n s = add_locked owner (pos 0 -ℤ n) s

-- A chunk that io.Copy reads from the body, with how many of its bytes the file takes, and whether
-- the write to the file fails.
pub record Chunk : Type 0 where
  pub size : ℕ
  pub taken : ℕ
  pub fails : Bool

pub data WriteError : Type 0 where
  quota_exceeded : Refusal → WriteError
  file_failed short_write read_failed : WriteError

-- What a Write leaves: the bytes written, the error, what the blob has reserved, and the store.
pub record Written : Type 0 where
  pub count : ℕ
  pub error : Option WriteError
  pub reserved : ℕ
  pub store : BlobStore

abbrev file_error : Chunk → Option WriteError
file_error c = if c.fails then some file_failed else none

-- The rest of `write` after the reservation.
unfoldable pub write_file : String → ℕ → Chunk → Option Refusal → BlobStore → Written
unfolding release
write_file owner reserved c (some e) s = record {
  count = 0;
  error = some (quota_exceeded e);
  reserved = reserved;
  store = s;
}
write_file owner reserved c none s = record {
  count = c.taken;
  error = file_error c;
  reserved = reserved + c.taken;
  store = if ltb c.taken c.size then release owner (pos (c.size - c.taken)) s else s;
}

-- quotaWriter.Write
unfoldable pub write : String → ℕ → Chunk → BlobStore → Written
unfolding reserve write_file
write owner reserved c s =
    let (refusal, s1) = reserve owner (pos reserved) (pos c.size) s in
    write_file owner reserved c refusal s1

abbrev stopped : Chunk → Written → Option WriteError
stopped c w = elim w.error [
  | some e ↦ some e
  | none ↦ if eqb w.count c.size then none else some short_write
]

abbrev pub stop_or : Option WriteError → ℕ → Written → Written → Written
stop_or (some e) total w rest = record w { count = total; error = some e }
stop_or none total w rest = rest

-- io.Copy from a body that gives these chunks and then ends, with an error where `broken` says so;
-- `total` is what was written before.
unfoldable pub copy : String → Bool → List Chunk → ℕ → ℕ → BlobStore → Written
unfolding write
copy owner broken [] total reserved s = record {
  count = total;
  error = if broken then some read_failed else none;
  reserved = reserved;
  store = s;
}
copy owner broken (c ∷ cs) total reserved s =
    let w = write owner reserved c s in
    let rest = copy owner broken cs (total + w.count) w.reserved w.store in
    stop_or (stopped c w) (total + w.count) w rest

-- The blob's size and the store, or the error and the store.
abbrev pub Put : Type 0
Put = Result WriteError ℕ × BlobStore

-- What PutOwned does with the outcome of the copy. The id is new; the rest of the entry is given.
unfoldable pub finish_put : String → (ℤ → BlobEntry) → String → Option WriteError → Written → Put
unfolding release insert
finish_put id entry owner (some e) w = (err e, release owner (pos w.reserved) w.store)
finish_put id entry owner none w =
    let s = w.store in (ok w.count, record s { blobs = insert id (entry (pos w.count)) s.blobs })

-- Store.PutOwned after the file is made.
unfoldable pub put_owned : String → (ℤ → BlobEntry) → String → Bool → List Chunk → BlobStore → Put
unfolding copy finish_put
put_owned id entry owner broken cs s =
    let w = copy owner broken cs 0 0 s in finish_put id entry owner w.error w

-- Store.Delete up to the removal of the file; `none` is an unknown id.
unfoldable pub delete : String → BlobStore → Option BlobEntry × BlobStore
unfolding lookup remove add_locked ◌-ℤ◌
delete id s = elim (lookup id s.blobs) [
  | none ↦ (none, s)
  | some e ↦
      let s1 = record s { blobs = remove id s.blobs } in
      (some e, add_locked e.owner (pos 0 -ℤ e.size) s1)
]
