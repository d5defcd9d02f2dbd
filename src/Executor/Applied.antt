-- ===== src/Executor/Applied.antt =====
-- internal/executor/executor.go: the kit that covers a call.
use mathlib.Core.List.{Memᴰ}
use mathlib.Core.Bool.{false≢true}
use tool_mesh.Prelude.{
  ap, sym, ◌∙◌, ◌↔◌, String, true, none, some, List, [], ◌∷◌, ◌≡◌, ◌≢◌, refl, Option-cases,
  Bool-cases, inl, inr,
}
use tool_mesh.Authz.Kit.{Kit, KitPart, covers, part_covers}
use tool_mesh.Authz.Request.{Request}
use tool_mesh.Executor.{
  find_kit, covers_call, part_covers_call, applied_part, applied_whole, applied_kit,
}

-- A kit of the catalog that the caller holds, whole or in part, covers the call.
pub data Covered (kits : List Kit) (req : Request) : Type 0 where
  by_whole :
      (name : String) (k : Kit)
      → Memᴰ name req.kits
      → find_kit kits name ≡ some k
      → covers k req.tool req.backend req.access ≡ true
      → Covered kits req
  by_part :
      (p : KitPart) (k : Kit)
      → Memᴰ p req.kit_parts
      → find_kit kits p.kit ≡ some k
      → part_covers k p req.tool req.backend req.access ≡ true
      → Covered kits req

Covered-whole :
    (kits : List Kit) (req : Request) (name : String)
    → Memᴰ name req.kits
    → covers_call (find_kit kits name) req ≡ true
    → Covered kits req
Covered-whole kits req name m h = elim (Option-cases (find_kit kits name)) [
  | inl missing ↦ absurd (false≢true (rw missing at h))
  | inr (k, found) ↦ by_whole name k m found (rw found at h)
]

Covered-part :
    (kits : List Kit) (req : Request) (p : KitPart)
    → Memᴰ p req.kit_parts
    → part_covers_call (find_kit kits p.kit) p req ≡ true
    → Covered kits req
Covered-part kits req p m h = elim (Option-cases (find_kit kits p.kit)) [
  | inl missing ↦ absurd (false≢true (rw missing at h))
  | inr (k, found) ↦ by_part p k m found (rw found at h)
]

part_sound :
    (kits : List Kit) (req : Request) (ps : List KitPart)
    → ((p : KitPart) → Memᴰ p ps → Memᴰ p req.kit_parts)
    → applied_part kits req ps ≢ ""
    → Covered kits req
unfolding applied_part
part_sound kits req [] sub h = absurd (h refl)
part_sound kits req (p ∷ ps) sub h =
    elim (Bool-cases (part_covers_call (find_kit kits p.kit) p req)) [
      | inl hit ↦ Covered-part kits req p (sub p (Memᴰ.head refl)) hit
      | inr miss ↦
          part_sound kits req ps (λ q m. sub q (Memᴰ.tail m)) (rw (miss, applied_part) at h)
    ]

whole_sound :
    (kits : List Kit) (req : Request) (names : List String)
    → ((n : String) → Memᴰ n names → Memᴰ n req.kits)
    → applied_whole kits req names ≢ ""
    → Covered kits req
unfolding applied_whole
whole_sound kits req [] sub h = part_sound kits req req.kit_parts (λ p m. m) h
whole_sound kits req (n ∷ ns) sub h = elim (Bool-cases (covers_call (find_kit kits n) req)) [
  | inl hit ↦ Covered-whole kits req n (sub n (Memᴰ.head refl)) hit
  | inr miss ↦ whole_sound kits req ns (λ m k. sub m (Memᴰ.tail k)) (rw (miss, applied_whole) at h)
]

-- A name that covers a call is no empty name, as the catalog has none.
named :
    (kits : List Kit) (n : String) (k : Kit)
    → find_kit kits "" ≡ none
    → find_kit kits n ≡ some k
    → n ≢ ""
named kits n k unnamed found e = cc (ap (find_kit kits) e)

whole_named :
    (kits : List Kit) (req : Request) (n : String)
    → find_kit kits "" ≡ none
    → covers_call (find_kit kits n) req ≡ true
    → n ≢ ""
whole_named kits req n unnamed h e =
    false≢true (ap (λ k. covers_call k req) (sym (ap (find_kit kits) e ∙ unnamed)) ∙ h)

part_named :
    (kits : List Kit) (req : Request) (p : KitPart)
    → find_kit kits "" ≡ none
    → part_covers_call (find_kit kits p.kit) p req ≡ true
    → p.kit ≢ ""
part_named kits req p unnamed h e =
    false≢true (ap (λ k. part_covers_call k p req) (sym (ap (find_kit kits) e ∙ unnamed)) ∙ h)

part_complete :
    (kits : List Kit) (req : Request) (ps : List KitPart) (p : KitPart) (k : Kit)
    → find_kit kits "" ≡ none
    → Memᴰ p ps
    → find_kit kits p.kit ≡ some k
    → part_covers k p req.tool req.backend req.access ≡ true
    → applied_part kits req ps ≢ ""
unfolding applied_part
part_complete kits req [] p k unnamed m found c = elim m [ ]
part_complete kits req (q ∷ ps) p k unnamed (Memᴰ.head e) found c =
    let found' : find_kit kits q.kit ≡ some k = rw (← e) found in
    let c' : part_covers k q req.tool req.backend req.access ≡ true = rw (← e) c in
    rw (found', applied_part, c') (named kits q.kit k unnamed found')
part_complete kits req (q ∷ ps) p k unnamed (Memᴰ.tail m) found c =
    elim (Bool-cases (part_covers_call (find_kit kits q.kit) q req)) [
      | inl hit ↦ rw (hit, applied_part) (part_named kits req q unnamed hit)
      | inr miss ↦ rw (miss, applied_part) (part_complete kits req ps p k unnamed m found c)
    ]

whole_falls_through :
    (kits : List Kit) (req : Request) (ns : List String)
    → find_kit kits "" ≡ none
    → applied_part kits req req.kit_parts ≢ ""
    → applied_whole kits req ns ≢ ""
unfolding applied_whole
whole_falls_through kits req [] unnamed h = h
whole_falls_through kits req (n ∷ ns) unnamed h =
    elim (Bool-cases (covers_call (find_kit kits n) req)) [
      | inl hit ↦ rw (hit, applied_whole) (whole_named kits req n unnamed hit)
      | inr miss ↦ rw (miss, applied_whole) (whole_falls_through kits req ns unnamed h)
    ]

whole_complete :
    (kits : List Kit) (req : Request) (ns : List String) (name : String) (k : Kit)
    → find_kit kits "" ≡ none
    → Memᴰ name ns
    → find_kit kits name ≡ some k
    → covers k req.tool req.backend req.access ≡ true
    → applied_whole kits req ns ≢ ""
unfolding applied_whole
whole_complete kits req [] name k unnamed m found c = elim m [ ]
whole_complete kits req (n ∷ ns) name k unnamed (Memᴰ.head e) found c =
    let found' : find_kit kits n ≡ some k = rw (← e) found in
    rw (found', applied_whole, c) (named kits n k unnamed found')
whole_complete kits req (n ∷ ns) name k unnamed (Memᴰ.tail m) found c =
    elim (Bool-cases (covers_call (find_kit kits n) req)) [
      | inl hit ↦ rw (hit, applied_whole) (whole_named kits req n unnamed hit)
      | inr miss ↦ rw (miss, applied_whole) (whole_complete kits req ns name k unnamed m found c)
    ]

-- Where no kit of the catalog has the empty name, `applied_kit` names a kit exactly when a kit
-- that the caller holds, whole or in part, covers the call.
pub applied_kit_iff :
    (kits : List Kit) (req : Request)
    → find_kit kits "" ≡ none
    → (applied_kit kits req ≢ "") ↔ Covered kits req
unfolding applied_kit
applied_kit_iff kits req unnamed = (whole_sound kits req req.kits (λ n m. m), complete)
  where
    complete : Covered kits req → applied_whole kits req req.kits ≢ ""
    complete (by_whole name k m found c) = whole_complete kits req req.kits name k unnamed m found c
    complete (by_part p k m found c) =
        whole_falls_through kits req req.kits unnamed
          (part_complete kits req req.kit_parts p k unnamed m found c)
