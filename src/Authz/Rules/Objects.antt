-- ===== src/Authz/Rules/Objects.antt =====
-- internal/authz: which tools the objects of a rule, a kit or a part of a kit stand for.
use tool_mesh.Prelude.{
  String, Bool, true, false, not, ◌&&◌, ◌||◌, Option, none, some, List, [], ◌∷◌, ◌++◌, Result, ok,
  err, ◌==◌, eq_iff, eq_refl, if◌then◌else◌, map, any, contains, ◌≡◌, refl, ap, ◌∙◌, arith,
  Bool-cases, inl, inr, any-ext,
}
use tool_mesh.Authz.Kit.{
  Kit, KitPart, KitScope, parse_kit_scope, scope_covers, scope_covers_fields, covered_by, covers,
  part_covers,
}
use tool_mesh.Authz.Kit
use tool_mesh.Authz.Request.{Request}
use tool_mesh.Authz.Tuples.{
  Object, same_object, Rule, rule_objects, obj_instance, named, backend_access, scope_object,
  objects_of_scope, scope_objects, tool_objects, part_objects,
}
use tool_mesh.Authz.Tuples.Names.{same_id, same_backend_access}
use tool_mesh.Authz.Embedded.{contains_object, kit_of, objects_of_kit, parts_objects}
use tool_mesh.Authz.Rules.{targets, covers_by, part_applies}
use tool_mesh.Authz.Rules.Caller.{tool_of, kit_objects}

-- The tool, the instance, its backend, its access classification, or both of these.
abbrev pub reached : Request → (Object → Bool) → Bool
reached req q =
    q (tool_of req)
    || q obj_instance
    || not (req.backend == "") && q (named "backend" req.backend)
    || not (req.access == "") && q (named "access_class" req.access)
    || not (req.backend == "")
      && not (req.access == "")
      && q (backend_access req.backend req.access)

pub contains_object-append :
    (xs ys : List Object) (o : Object)
    → contains_object (xs ++ ys) o ≡ (contains_object xs o || contains_object ys o)
unfolding contains_object
contains_object-append [] ys o = refl
contains_object-append (x ∷ xs) ys o = ground (arith, contains_object-append xs ys o)

pub contains_object-named :
    (kind name : String) (xs : List String)
    → contains_object (map (named kind) xs) (named kind name) ≡ contains xs name
unfolding contains_object contains
contains_object-named kind name [] = refl
contains_object-named kind name (x ∷ xs) =
    ground (arith, contains_object-named kind name xs, eq_refl kind, same_id x name)

contains_object-other :
    (kind : String) (o : Object) (xs : List String)
    → (kind == o.kind) ≡ false
    → contains_object (map (named kind) xs) o ≡ false
unfolding contains_object
contains_object-other kind o [] h = refl
contains_object-other kind o (x ∷ xs) h = ground (arith, contains_object-other kind o xs h, h)

-- The objects of a rule, one kind after the other.
contains_object-rule :
    (g : Rule) (o : Object)
    → contains_object (rule_objects g) o ≡ (
        g.all_tools && same_object obj_instance o
        || contains_object (map (named "backend") g.backends) o
        || contains_object (map (named "tool") g.tools) o
        || contains_object (map (named "access_class") g.access) o)
unfolding rule_objects contains_object
contains_object-rule g o =
    let every = if g.all_tools then obj_instance ∷ [] else [] in
    let backends = map (named "backend") g.backends in
    let tools = map (named "tool") g.tools in
    let access = map (named "access_class") g.access in
    ground (
      arith,
      contains_object-append (every ++ backends ++ tools) access o,
      contains_object-append (every ++ backends) tools o,
      contains_object-append every backends o,
    )

-- No rule names a backend with an access classification.
pub rule_objects-pair :
    (g : Rule) (b a : String) → contains_object (rule_objects g) (backend_access b a) ≡ false
rule_objects-pair g b a = ground (
  arith,
  contains_object-rule g (backend_access b a),
  contains_object-other "backend" (backend_access b a) g.backends refl,
  contains_object-other "tool" (backend_access b a) g.tools refl,
  contains_object-other "access_class" (backend_access b a) g.access refl,
)

-- What a rule names, of one kind.
pub rule_objects-kind :
    (g : Rule) (o : Object)
    → contains_object (rule_objects g) o ≡ (
        g.all_tools && same_object obj_instance o
        || "backend" == o.kind && contains_object (map (named "backend") g.backends) o
        || "tool" == o.kind && contains_object (map (named "tool") g.tools) o
        || "access_class" == o.kind && contains_object (map (named "access_class") g.access) o)
rule_objects-kind g o = ground (
  arith,
  contains_object-rule g o,
  contains_object-other "backend" o g.backends,
  contains_object-other "tool" o g.tools,
  contains_object-other "access_class" o g.access,
)

pub rule_objects-targets :
    (g : Rule) (req : Request) → reached req (contains_object (rule_objects g)) ≡ targets g req
unfolding targets
rule_objects-targets g req = ground (
  arith,
  rule_objects-kind g (tool_of req),
  rule_objects-kind g obj_instance,
  rule_objects-kind g (named "backend" req.backend),
  rule_objects-kind g (named "access_class" req.access),
  rule_objects-pair g req.backend req.access,
  contains_object-named "tool" req.tool g.tools,
  contains_object-named "backend" req.backend g.backends,
  contains_object-named "access_class" req.access g.access,
)

reached-or :
    (req : Request) (xs ys : List Object)
    → reached req (contains_object (xs ++ ys))
      ≡ (reached req (contains_object xs) || reached req (contains_object ys))
reached-or req xs ys = ground (
  arith,
  contains_object-append xs ys (tool_of req),
  contains_object-append xs ys obj_instance,
  contains_object-append xs ys (named "backend" req.backend),
  contains_object-append xs ys (named "access_class" req.access),
  contains_object-append xs ys (backend_access req.backend req.access),
)

scope_object-covers :
    (req : Request) (s : KitScope)
    → reached req (λ o. same_object (scope_object s) o)
      ≡ scope_covers_fields s req.backend req.access
unfolding scope_object scope_covers_fields
scope_object-covers req s = elim (Bool-cases (s.backend == "")) [
  | inl b ↦ elim (Bool-cases (s.access == "")) [
    | inl a ↦ rw (b, a) (ground arith)
    | inr a ↦
        rw (b, a) (ground (arith, b, a, same_id s.access req.access, eq_iff s.access req.access))
  ]
  | inr b ↦ elim (Bool-cases (s.access == "")) [
    | inl a ↦
        rw (b, a)
          (ground (arith, b, a, same_id s.backend req.backend, eq_iff s.backend req.backend))
    | inr a ↦
        rw (b, a)
          (ground (
            arith,
            b,
            a,
            same_backend_access s.backend s.access req.backend req.access,
            eq_iff s.backend req.backend,
            eq_iff s.access req.access,
          ))
  ]
]

or_false : (b : Bool) → (b || false) ≡ b
or_false b = ground arith

objects_of_scope-covers :
    (req : Request) (parsed : Result Kit.Error KitScope)
    → reached req (contains_object (objects_of_scope parsed))
      ≡ covered_by parsed req.backend req.access
unfolding contains_object
objects_of_scope-covers req (ok s) =
    (λ i. reached req (λ o. or_false (same_object (scope_object s) o) i))
    ∙ scope_object-covers req s
objects_of_scope-covers req (err e) = ground arith

scope_objects-covers :
    (req : Request) (listed : String → Bool) (gs : List String)
    → reached req (contains_object (scope_objects listed gs))
      ≡ any (λ g. listed g && scope_covers g req.backend req.access) gs
unfolding scope_objects contains_object scope_covers
scope_objects-covers req listed [] = ground arith
scope_objects-covers req listed (g ∷ gs) = ground (
  arith,
  scope_objects-covers req listed gs,
  objects_of_scope-covers req (parse_kit_scope g),
  reached-or req (objects_of_scope (parse_kit_scope g)) (scope_objects listed gs),
)

tool_objects-covers :
    (req : Request) (listed : String → Bool) (ts : List String)
    → reached req (contains_object (tool_objects listed ts))
      ≡ any (λ t. t == req.tool && listed t) ts
unfolding tool_objects contains_object
tool_objects-covers req listed [] = ground arith
tool_objects-covers req listed (t ∷ ts) =
    ground (arith, tool_objects-covers req listed ts, same_id t req.tool)

pub kit_objects-covers :
    (req : Request) (k : Kit)
    → reached req (contains_object (kit_objects k)) ≡ covers k req.tool req.backend req.access
unfolding covers contains
kit_objects-covers req k = ground (
  arith,
  reached-or req (scope_objects (λ g. true) k.grants) (tool_objects (λ t. true) k.tools),
  scope_objects-covers req (λ g. true) k.grants,
  tool_objects-covers req (λ t. true) k.tools,
  any-ext (λ t. t == req.tool && true) (λ t. t == req.tool) k.tools (λ t. ground arith),
  any-ext (λ g. true && scope_covers g req.backend req.access)
      (λ g. scope_covers g req.backend req.access) k.grants (λ g. refl),
)

part_objects-covers :
    (req : Request) (k : Kit) (p : KitPart)
    → reached req (contains_object (part_objects k p))
      ≡ part_covers k p req.tool req.backend req.access
unfolding part_objects part_covers
part_objects-covers req k p = ground (
  arith,
  reached-or req (scope_objects (contains k.grants) p.grants)
      (tool_objects (contains k.tools) p.tools),
  scope_objects-covers req (contains k.grants) p.grants,
  tool_objects-covers req (contains k.tools) p.tools,
)

objects_of_kit-covers :
    (req : Request) (k : Option Kit) (p : KitPart)
    → reached req (contains_object (objects_of_kit k p)) ≡ covers_by k p req
unfolding contains_object
objects_of_kit-covers req none p = ground arith
objects_of_kit-covers req (some k) p = part_objects-covers req k p

pub parts_objects-applies :
    (req : Request) (kits : List Kit) (ps : List KitPart)
    → reached req (contains_object (parts_objects kits ps)) ≡ any (part_applies kits req) ps
unfolding parts_objects part_applies contains_object
parts_objects-applies req kits [] = ground arith
parts_objects-applies req kits (p ∷ ps) = ground (
  arith,
  reached-or req (objects_of_kit (kit_of kits p.kit) p) (parts_objects kits ps),
  objects_of_kit-covers req (kit_of kits p.kit) p,
  parts_objects-applies req kits ps,
)

reached_step :
    (req : Request) (c : Bool) (p q : Object → Bool)
    → reached req (λ o. c && p o || q o) ≡ (c && reached req p || reached req q)
reached_step req true p q = ground arith
reached_step req false p q = refl

pub reached-any :
    {A : Type 0} (req : Request) (c : A → Bool) (p : A → Object → Bool) (xs : List A)
    → reached req (λ o. any (λ x. c x && p x o) xs) ≡ any (λ x. c x && reached req (p x)) xs
reached-any req c p [] = ground arith
reached-any req c p (x ∷ xs) =
    reached_step req (c x) (p x) (λ o. any (λ y. c y && p y o) xs)
    ∙ ap (λ b. c x && reached req (p x) || b) (reached-any req c p xs)

pub reached_or :
    (req : Request) (p q r : Object → Bool)
    → reached req (λ o. p o || q o || r o) ≡ (reached req p || reached req q || reached req r)
reached_or req p q r =
    reached_step req true (λ o. p o || q o) r
    ∙ ap (λ b. b || reached req r) (reached_step req true p q)
