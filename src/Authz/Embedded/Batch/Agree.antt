-- ===== src/Authz/Embedded/Batch/Agree.antt =====
-- internal/authz/embedded.go: a tool without rules of its own is decided by its place alone.
use mathlib.Core.Path.{ap₂}
use tool_mesh.Prelude.{
  String, Bool, true, false, ◌&&◌, ◌||◌, some, List, [], ◌∷◌, ◌==◌, any, any-ext, contains, ◌≡◌,
  refl, ap, ◌∙◌, arith, Option-cases, inl, inr,
}
use tool_mesh.Authz.Kit.{Kit, KitPart, covers, part_covers, scope_covers}
use tool_mesh.Authz.Kit.Parts.{any-tool}
use tool_mesh.Authz.Request.{Request}
use tool_mesh.Authz.Tuples.{Rule}
use tool_mesh.Authz.Embedded.{kit_of}
use tool_mesh.Authz.Embedded.Batch.Keys.{SameButTool, contains-same}
use tool_mesh.Authz.Rules.{Rules, allows, concerns, targets, kit_applies, part_applies}

-- Some rule or kit lists the tool by name.
unfoldable pub names : Rules → String → Bool
unfolding contains
names r tool =
    any (λ g. contains g.tools tool) r.grants
    || any (λ g. contains g.tools tool) r.denies
    || any (λ k. contains k.tools tool) r.kits

any-same :
    {A : Type 0} (v w p q : A → Bool) (xs : List A)
    → any v xs ≡ false
    → any w xs ≡ false
    → ((a : A) → v a ≡ false → w a ≡ false → p a ≡ q a)
    → any p xs ≡ any q xs
any-same v w p q [] hv hw h = refl
any-same v w p q (x ∷ xs) hv hw h = ground (arith, hv, hw, h x, any-same v w p q xs)

kit_of-none :
    (w : Kit → Bool) (ks : List Kit) (name : String) (k : Kit)
    → any w ks ≡ false
    → kit_of ks name ≡ some k
    → w k ≡ false
unfolding kit_of
kit_of-none w [] name k h e = cc e
kit_of-none w (x ∷ ks) name k h e = ground (arith, h, e, kit_of-none w ks name k)

module _ (r s : Request) (same : SameButTool r s) where
  concerns-same : (g : Rule) → concerns g r ≡ concerns g s
  unfolding concerns
  concerns-same g = ground (
    arith,
    ap (λ x. g.user == x) same.user,
    ap (λ x. g.plan == x) same.plan,
    ap (λ x. g.company == x) same.company,
    contains-same r.roles s.roles g.role same.roles,
  )

  targets-same :
      (g : Rule)
      → contains g.tools r.tool ≡ false
      → contains g.tools s.tool ≡ false
      → targets g r ≡ targets g s
  unfolding targets
  targets-same g hr hs = ground (
    arith,
    hr,
    hs,
    ap (λ x. x == "") same.backend,
    ap (λ x. x == "") same.access,
    ap (contains g.backends) same.backend,
    ap (contains g.access) same.access,
  )

  scopes-same :
      (q : String → Bool) (gs : List String)
      → any (λ g. q g && scope_covers g r.backend r.access) gs
        ≡ any (λ g. q g && scope_covers g s.backend s.access) gs
  scopes-same q gs =
      ap₂ (λ (b a : String). any (λ g. q g && scope_covers g b a) gs) same.backend same.access

  covers-same :
      (k : Kit)
      → contains k.tools r.tool ≡ false
      → contains k.tools s.tool ≡ false
      → covers k r.tool r.backend r.access ≡ covers k s.tool s.backend s.access
  unfolding covers
  covers-same k hr hs = ground (arith, hr, hs, scopes-same (λ g. true) k.grants)

  part_covers-same :
      (k : Kit) (p : KitPart)
      → contains k.tools r.tool ≡ false
      → contains k.tools s.tool ≡ false
      → part_covers k p r.tool r.backend r.access ≡ part_covers k p s.tool s.backend s.access
  unfolding part_covers
  part_covers-same k p hr hs = ground (
    arith,
    hr,
    hs,
    any-tool k.tools p.tools r.tool,
    any-tool k.tools p.tools s.tool,
    scopes-same (contains k.grants) p.grants,
  )

  module _ (rules : Rules) (free_r : names rules r.tool ≡ false)
      (free_s : names rules s.tool ≡ false) where
    rules-same :
        (gs : List Rule)
        → any (λ g. contains g.tools r.tool) gs ≡ false
        → any (λ g. contains g.tools s.tool) gs ≡ false
        → any (λ g. concerns g r && targets g r) gs ≡ any (λ g. concerns g s && targets g s) gs
    rules-same gs hr hs =
        any-same (λ g. contains g.tools r.tool) (λ g. contains g.tools s.tool) _ _ gs hr hs
          (λ g v w. ground (arith, concerns-same g, targets-same g v w))

    kits-same :
        (ks : List Kit)
        → any (λ k. contains k.tools r.tool) ks ≡ false
        → any (λ k. contains k.tools s.tool) ks ≡ false
        → any (kit_applies r) ks ≡ any (kit_applies s) ks
    unfolding kit_applies
    kits-same ks hr hs =
        any-same (λ k. contains k.tools r.tool) (λ k. contains k.tools s.tool) _ _ ks hr hs
          (λ k v w. ground (arith, covers-same k v w, contains-same r.kits s.kits k.name same.kits))

    part-same :
        (p : KitPart) (ks : List Kit)
        → any (λ k. contains k.tools r.tool) ks ≡ false
        → any (λ k. contains k.tools s.tool) ks ≡ false
        → part_applies ks r p ≡ part_applies ks s p
    unfolding part_applies
    part-same p ks hr hs = elim (Option-cases (kit_of ks p.kit)) [
      | inl no_kit ↦ rw no_kit refl
      | inr (k, found) ↦ rw found (
          part_covers-same k p (kit_of-none (λ k. contains k.tools r.tool) ks p.kit k hr found)
            (kit_of-none (λ k. contains k.tools s.tool) ks p.kit k hs found))
    ]

    parts-same :
        (ks : List Kit)
        → any (λ k. contains k.tools r.tool) ks ≡ false
        → any (λ k. contains k.tools s.tool) ks ≡ false
        → any (part_applies ks r) r.kit_parts ≡ any (part_applies ks s) s.kit_parts
    parts-same ks hr hs =
        any-ext (part_applies ks r) (part_applies ks s) r.kit_parts (λ p. part-same p ks hr hs)
        ∙ ap (any (part_applies ks s)) same.parts

    -- Rules that name neither tool allow both requests, or none.
    pub allows-same : allows rules r ≡ allows rules s
    unfolding allows names
    allows-same = ground (
      arith,
      free_r,
      free_s,
      rules-same rules.grants,
      rules-same rules.denies,
      kits-same rules.kits,
      parts-same rules.kits,
    )
