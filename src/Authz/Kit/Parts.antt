-- ===== src/Authz/Kit/Parts.antt =====
-- internal/authz/kits.go: what a part of a kit covers beside the whole kit.
use tool_mesh.Prelude.{
  String, Bool, true, false, ◌&&◌, ◌||◌, List, [], ◌∷◌, ◌==◌, eq_iff, any, all, contains, ◌≡◌, refl,
  arith, none, ok, sym, ◌∙◌,
}
use tool_mesh.Authz.Kit.{
  Kit, KitPart, covers, part_covers, scope_covers, is_whole, part, first_missing, sorted, compact,
  is_empty,
}
use tool_mesh.Authz.Kit.Laws.{
  any_of_contains, all-contains, any_elim, Bool-iff, any_same, any_mono, contains-sorted,
  contains-compact, first_missing-contains,
}

-- The loop over the tools of a part.
pub any-tool :
    (listed ts : List String) (tool : String)
    → any (λ t. t == tool && contains listed t) ts ≡ (contains ts tool && contains listed tool)
unfolding contains
any-tool listed [] tool = refl
any-tool listed (t ∷ ts) tool = ground (arith, eq_iff t tool, any-tool listed ts tool)

any-listed :
    (q : String → Bool) (listed xs : List String)
    → any (λ g. contains listed g && q g) xs ≡ true
    → any q listed ≡ true
any-listed q listed xs h =
    let (a, _, both) = any_elim (λ g. contains listed g && q g) xs h in
    any_of_contains q listed a (ground arith) (ground arith)

-- A part covers nothing that its kit does not cover.
pub part_covers-covers :
    (k : Kit) (p : KitPart) (tool backend access : String)
    → part_covers k p tool backend access ≡ true
    → covers k tool backend access ≡ true
unfolding part_covers covers
part_covers-covers k p tool backend access h = ground (
  arith,
  any-tool k.tools p.tools tool,
  any-listed (λ g. scope_covers g backend access) k.grants p.grants,
)

any_listed_whole :
    (q : String → Bool) (listed xs : List String)
    → all (contains xs) listed ≡ true
    → any q listed ≡ true
    → any (λ g. contains listed g && q g) xs ≡ true
any_listed_whole q listed xs whole h =
    let (a, l, passes) = any_elim q listed h in
    any_of_contains (λ g. contains listed g && q g) xs a
      (all-contains (contains xs) listed a whole l) (ground arith)

-- A part with every entry of the kit covers exactly what the kit covers.
pub part_covers_of_is_whole :
    (k : Kit) (p : KitPart) (tool backend access : String)
    → is_whole k p ≡ true
    → part_covers k p tool backend access ≡ covers k tool backend access
unfolding part_covers covers is_whole
part_covers_of_is_whole k p tool backend access h =
    Bool-iff (part_covers-covers k p tool backend access) λ c. ground (
      arith,
      any-tool k.tools p.tools tool,
      all-contains (contains p.tools) k.tools tool,
      any_listed_whole (λ g. scope_covers g backend access) k.grants p.grants,
    )

any-filtered :
    (q : String → Bool) (listed xs : List String)
    → ((a : String) → contains xs a ≡ true → contains listed a ≡ true)
    → any (λ g. contains listed g && q g) xs ≡ any q xs
any-filtered q listed xs sub =
    Bool-iff (any_mono (λ g. contains listed g && q g) q xs (λ a h. ground arith)) λ h.
      let (a, l, passes) = any_elim q xs h in
      any_of_contains (λ g. contains listed g && q g) xs a l (ground (arith, sub a l))

same-compact : (xs : List String) (a : String) → contains (compact (sorted xs)) a ≡ contains xs a
same-compact xs a = contains-compact a (sorted xs) ∙ contains-sorted a xs

-- What `part` accepts, and what it then returns.
pub record IsPartOf (k : Kit) (grants tools : List String) (p : KitPart) : Type 0 where
  pub nonempty : (is_empty grants && is_empty tools) ≡ false
  pub grants_listed : first_missing k.grants grants ≡ none
  pub tools_listed : first_missing k.tools tools ≡ none
  pub kit : p.kit ≡ k.name
  pub same_grants : p.grants ≡ compact (sorted grants)
  pub same_tools : p.tools ≡ compact (sorted tools)

pub part-IsPartOf :
    (k : Kit) (grants tools : List String) (p : KitPart)
    → part k grants tools ≡ ok p
    → IsPartOf k grants tools p
unfolding part
part-IsPartOf k grants tools p h = ground arith

IsPartOf-grants :
    (k : Kit) (grants tools : List String) (p : KitPart)
    → IsPartOf k grants tools p
    → (a : String) → contains p.grants a ≡ contains grants a
IsPartOf-grants k grants tools p v a = rw v.same_grants (same-compact grants a)

IsPartOf-tools :
    (k : Kit) (grants tools : List String) (p : KitPart)
    → IsPartOf k grants tools p
    → (a : String) → contains p.tools a ≡ contains tools a
IsPartOf-tools k grants tools p v a = rw v.same_tools (same-compact tools a)

-- A part that `part` returns is of the kit, and covers exactly the tools that one of the entries
-- given to `part` covers.
pub part_covers-part :
    (k : Kit) (grants tools : List String) (p : KitPart) (tool backend access : String)
    → part k grants tools ≡ ok p
    → (p.kit ≡ k.name)
      × (part_covers k p tool backend access
          ≡ (any (λ g. scope_covers g backend access) grants || contains tools tool))
unfolding part_covers
part_covers-part k grants tools p tool backend access h =
    let v = part-IsPartOf k grants tools p h in
    let q = λ (g : String). scope_covers g backend access in
    let gs = IsPartOf-grants k grants tools p v in
    (
      v.kit,
      ground (
        arith,
        any-tool k.tools p.tools tool,
        any-filtered q k.grants p.grants
            (λ a l. first_missing-contains k.grants grants a v.grants_listed (sym (gs a) ∙ l)),
        any_same q p.grants grants gs,
        IsPartOf-tools k grants tools p v tool,
        first_missing-contains k.tools tools tool v.tools_listed,
      ),
    )

-- Whatever the kit, a part covers only what its entries cover.
part_entries :
    (k : Kit) (p : KitPart) (tool backend access : String)
    → part_covers k p tool backend access ≡ true
    → (any (λ g. scope_covers g backend access) p.grants || contains p.tools tool) ≡ true
unfolding part_covers
part_entries k p tool backend access h = ground (
  arith,
  any-tool k.tools p.tools tool,
  any_mono (λ g. contains k.grants g && scope_covers g backend access)
      (λ g. scope_covers g backend access) p.grants (λ a both. ground arith),
)

-- Whatever the kit lists later, a part made from it covers no more than the kit did when the part
-- was made.
pub part_covers_later :
    (k later : Kit) (grants tools : List String) (p : KitPart) (tool backend access : String)
    → part k grants tools ≡ ok p
    → part_covers later p tool backend access ≡ true
    → covers k tool backend access ≡ true
unfolding part_covers covers
part_covers_later k later grants tools p tool backend access h c =
    part_covers-covers k p tool backend access (
      ground (
        arith,
        part_covers-part k grants tools p tool backend access h,
        part_entries later p tool backend access c,
        any_same q p.grants grants (IsPartOf-grants k grants tools p v),
        IsPartOf-tools k grants tools p v tool,
      ))
  where
    v : IsPartOf k grants tools p
    v = part-IsPartOf k grants tools p h

    q : String → Bool
    q g = scope_covers g backend access
