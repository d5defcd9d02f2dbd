-- ===== src/Blob/Tests.antt =====
-- internal/blob, on a store with two users.
use tool_mesh.Prelude.{ℕ, ok, err, String, false, List, [], ◌∷◌, ◌≡◌, refl, arith}
use tool_mesh.Prelude.Int.{ℤ, pos, ◌≤ℤ◌}
use tool_mesh.Blob.{
  BlobEntry, BlobStore, share, over_total, over_share, Chunk, quota_exceeded, put_owned, delete,
}
use tool_mesh.Blob.Counted.{PutCounts, put_owned-PutCounts}
use tool_mesh.Blob.Within.{exceeds, put_owned_within}

abbrev blob : String → ℤ → BlobEntry
blob owner size = record {
  content_type = "text/plain";
  size = size;
  filename = "";
  owner = owner;
  expires_at = 100;
}

abbrev one_blob : BlobStore
one_blob = record {
  blobs = ("b1", blob "ann" (pos 60)) ∷ [];
  quota = record { max_total_bytes = pos 100; max_bytes_per_user = pos 80 };
  used = pos 60;
  used_by = ("ann", pos 60) ∷ [];
}

abbrev chunk : ℕ → Chunk
chunk n = record { size = n; taken = n; fails = false }

abbrev two_chunks : List Chunk
two_chunks = chunk 15 ∷ chunk 10 ∷ []

over_the_share :
    (put_owned "b2" (blob "ann") "ann" false two_chunks one_blob).0
    ≡ err (quota_exceeded (over_share (pos 80) (pos 60)))
unfolding put_owned
over_the_share = refl

over_the_total :
    (put_owned "b2" (blob "bob") "bob" false (chunk 50 ∷ []) one_blob).0
    ≡ err (quota_exceeded (over_total (pos 100) (pos 60)))
unfolding put_owned
over_the_total = refl

room_for_another : (put_owned "b2" (blob "bob") "bob" false two_chunks one_blob).0 ≡ ok 25
unfolding put_owned
room_for_another = refl

deleted : (delete "b2" (put_owned "b2" (blob "bob") "bob" false two_chunks one_blob).1).1 ≡ one_blob
unfolding delete put_owned
deleted = refl

not_negative : pos 0 ≤ℤ share "ann" one_blob
unfolding share
not_negative = omega arith

put_owned-PutCounts_example :
    PutCounts "ann" "ann" one_blob "b2"
      (blob "ann")
      (put_owned "b2" (blob "ann") "ann" false two_chunks one_blob)
put_owned-PutCounts_example =
    put_owned-PutCounts "ann" "ann" one_blob not_negative "b2" (blob "ann") false two_chunks
      (omega arith, (omega arith, tt))

inside_before : exceeds one_blob.quota "ann" one_blob.used (share "ann" one_blob) ≡ false
unfolding share
inside_before = refl

-- The second chunk would go over the share, so the put fails in the middle.
abbrev after_put : BlobStore
after_put = (put_owned "b2" (blob "ann") "ann" false two_chunks one_blob).1

put_owned_within_example :
    exceeds after_put.quota "ann" after_put.used (share "ann" after_put) ≡ false
put_owned_within_example =
    put_owned_within "ann" one_blob not_negative "b2" (blob "ann") false two_chunks
      (omega arith, (omega arith, tt)) inside_before
