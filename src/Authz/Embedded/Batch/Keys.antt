-- ===== src/Authz/Embedded/Batch/Keys.antt =====
-- internal/authz/embedded.go: requests with the same key agree in everything but the tool.
use Prim.Native.String.{String, [], ◌∷◌, ◌++◌ as append, len}
use text.Mathlib.TextLemmas.{nil-append, cons-append, cons≢nil, append-eq-nil_iff}
use mathlib.Core.List.{List, [], ◌∷◌, ◌++◌, head-eq_of_cons-eq, tail-eq_of_cons-eq, nil≢cons}
use mathlib.Core.Bool.{false≢true}
use tool_mesh.Prelude.{
  Bool, true, false, ◌==◌, eq_iff, length, contains, ◌≡◌, ◌≢◌, refl, sym, ap, ◌∙◌, arith,
}
use tool_mesh.Prelude.Decimal.{itoa, itoa-injective, has_colon-itoa, append_same}
use tool_mesh.Authz.Kit.{KitPart, sorted}
use tool_mesh.Authz.Kit.Laws.{contains-sorted, contains-compact}
use tool_mesh.Authz.Request.{Request}
use tool_mesh.Authz.Escape.Safe.{append-split}
use tool_mesh.Authz.Embedded.Batch.{
  part_texts, as_set, key_texts, with_lengths, equivalence_key, format_bool,
}

colon_append : (a s : String) → append a (append ":" s) ≡ append a (":" ∷ s)
colon_append a s =
    ap (append a) (cons-append ":" [] s ∙ ap (λ (x : String). ":" ∷ x) (nil-append s))

one_length : String → String → String
one_length p rest = append (itoa (len p)) (append ":" (append p rest))

one_length-injective : (p q s t : String) → one_length p s ≡ one_length q t → (p ≡ q) × (s ≡ t)
unfolding one_length
one_length-injective p q s t e =
    let (lengths, texts) =
      append-split ":" (itoa (len p)) (itoa (len q)) (append p s) (append q t)
        (has_colon-itoa (len p)) (has_colon-itoa (len q))
        (sym (colon_append (itoa (len p)) (append p s))
          ∙ e
          ∙ colon_append (itoa (len q)) (append q t)) in
    append_same p q s t (itoa-injective (len p) (len q) lengths) texts

one_length-ne_nil : (p s : String) → one_length p s ≢ ""
unfolding one_length
one_length-ne_nil p s e =
    cons≢nil {x = ":"} {xs = ""} (append-eq-nil_iff.0 (append-eq-nil_iff.0 e).1).0

with_lengths-injective : (ps qs : List String) → with_lengths ps ≡ with_lengths qs → ps ≡ qs
unfolding with_lengths one_length
with_lengths-injective [] [] e = refl
with_lengths-injective [] (q ∷ qs) e = absurd (one_length-ne_nil q (with_lengths qs) (sym e))
with_lengths-injective (p ∷ ps) [] e = absurd (one_length-ne_nil p (with_lengths ps) e)
with_lengths-injective (p ∷ ps) (q ∷ qs) e =
    let (same, rest) = one_length-injective p q (with_lengths ps) (with_lengths qs) e in
    let more = with_lengths-injective ps qs rest in cc

lists_same :
    (xs ys s t : List String) → length xs ≡ length ys → xs ++ s ≡ ys ++ t → (xs ≡ ys) × (s ≡ t)
lists_same [] [] s t n e = (refl, e)
lists_same [] (y ∷ ys) s t n e = absurd (omega arith)
lists_same (x ∷ xs) [] s t n e = absurd (omega arith)
lists_same (x ∷ xs) (y ∷ ys) s t n e =
    let (same, rest) = lists_same xs ys s t (omega arith) (tail-eq_of_cons-eq e) in
    let first = head-eq_of_cons-eq e in (cc, rest)

part_texts-injective : (ps qs : List KitPart) → part_texts ps ≡ part_texts qs → ps ≡ qs
unfolding part_texts
part_texts-injective [] [] e = refl
part_texts-injective [] (q ∷ qs) e = absurd (nil≢cons e)
part_texts-injective (p ∷ ps) [] e = absurd (nil≢cons (sym e))
part_texts-injective (p ∷ ps) (q ∷ qs) e =
    let kit = head-eq_of_cons-eq e in
    let e1 = tail-eq_of_cons-eq e in
    let e2 = tail-eq_of_cons-eq e1 in
    let (grants, e3) =
      lists_same p.grants q.grants (p.tools ++ part_texts ps) (q.tools ++ part_texts qs)
        (itoa-injective (length p.grants) (length q.grants) (head-eq_of_cons-eq e1))
        (tail-eq_of_cons-eq e2) in
    let (tools, e4) =
      lists_same p.tools q.tools (part_texts ps) (part_texts qs)
        (itoa-injective (length p.tools) (length q.tools) (head-eq_of_cons-eq e2)) e3 in
    let more = part_texts-injective ps qs e4 in
    λ i. record { kit = kit i; grants = grants i; tools = tools i } ∷ more i

-- What a check depends on, apart from the name of the tool.
pub record SameButTool (r s : Request) : Type 0 where
  pub user : r.user_id ≡ s.user_id
  pub company : r.company_id ≡ s.company_id
  pub plan : r.plan ≡ s.plan
  pub backend : r.backend ≡ s.backend
  pub access : r.access ≡ s.access
  pub unnamed : (r.tool == "") ≡ (s.tool == "")
  pub roles : as_set r.roles ≡ as_set s.roles
  pub kits : as_set r.kits ≡ as_set s.kits
  pub parts : r.kit_parts ≡ s.kit_parts

format_bool-injective : (a b : Bool) → format_bool a ≡ format_bool b → a ≡ b
format_bool-injective true true e = refl
format_bool-injective false false e = refl
format_bool-injective true false e = absurd (false≢true ((eq_iff "true" "false").1 e))
format_bool-injective false true e = absurd (false≢true ((eq_iff "false" "true").1 e))

key_texts-SameButTool : (r s : Request) → key_texts r ≡ key_texts s → SameButTool r s
unfolding key_texts
key_texts-SameButTool r s e =
    let e1 = tail-eq_of_cons-eq e in
    let e2 = tail-eq_of_cons-eq e1 in
    let e3 = tail-eq_of_cons-eq e2 in
    let e4 = tail-eq_of_cons-eq e3 in
    let e5 = tail-eq_of_cons-eq e4 in
    let e6 = tail-eq_of_cons-eq e5 in
    let (roles, e7) =
      lists_same (as_set r.roles) (as_set s.roles)
        (itoa (length (as_set r.kits)) ∷ (as_set r.kits ++ part_texts r.kit_parts))
        (itoa (length (as_set s.kits)) ∷ (as_set s.kits ++ part_texts s.kit_parts))
        (itoa-injective (length (as_set r.roles)) (length (as_set s.roles)) (head-eq_of_cons-eq e6))
        (tail-eq_of_cons-eq e6) in
    let (kits, e8) =
      lists_same (as_set r.kits) (as_set s.kits) (part_texts r.kit_parts) (part_texts s.kit_parts)
        (itoa-injective (length (as_set r.kits)) (length (as_set s.kits)) (head-eq_of_cons-eq e7))
        (tail-eq_of_cons-eq e7) in
    record {
      user = head-eq_of_cons-eq e;
      company = head-eq_of_cons-eq e1;
      plan = head-eq_of_cons-eq e2;
      backend = head-eq_of_cons-eq e3;
      access = head-eq_of_cons-eq e4;
      unnamed = format_bool-injective (r.tool == "") (s.tool == "") (head-eq_of_cons-eq e5);
      roles = roles;
      kits = kits;
      parts = part_texts-injective r.kit_parts s.kit_parts e8;
    }

-- Requests with the same key have the same user, company, plan, backend and access classification,
-- the same sets of roles and of kits, and the same parts of kits, and both name a tool or neither.
pub equivalence_key-SameButTool :
    (r s : Request) → equivalence_key r ≡ equivalence_key s → SameButTool r s
unfolding equivalence_key
equivalence_key-SameButTool r s e =
    key_texts-SameButTool r s (with_lengths-injective (key_texts r) (key_texts s) e)

contains-as_set : (xs : List String) (a : String) → contains (as_set xs) a ≡ contains xs a
contains-as_set xs a = contains-compact a (sorted xs) ∙ contains-sorted a xs

pub contains-same :
    (xs ys : List String) (a : String) → as_set xs ≡ as_set ys → contains xs a ≡ contains ys a
contains-same xs ys a e =
    sym (contains-as_set xs a) ∙ ap (λ zs. contains zs a) e ∙ contains-as_set ys a
