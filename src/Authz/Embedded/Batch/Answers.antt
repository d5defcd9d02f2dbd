-- ===== src/Authz/Embedded/Batch/Answers.antt =====
-- internal/authz/embedded.go: CheckBatch answers what a check of each request alone would.
use mathlib.Core.Path.{ap₂}
use tool_mesh.Prelude.{
  String, Bool, true, false, ◌||◌, Option, none, some, List, [], ◌∷◌, ◌==◌, eq_iff, if◌then◌else◌,
  map, ◌≡◌, refl, sym, ap, ◌∙◌, arith, Bool-cases, inl, inr, ◌≤◌, length,
}
use mathlib.Core.Bool.{false≢true}
use tool_mesh.Prelude.Dict.{lookup, insert, lookup-insert}
use tool_mesh.Authz.Request.{Request, Answer, allowed, denied, failed}
use tool_mesh.Authz.Tuples.{named}
use tool_mesh.Authz.Embedded.{
  Engine, Embedded, contains_object, check, context_tuples, max_contextual_tuples,
}
use tool_mesh.Authz.Embedded.Applied.{Evaluates, InSync}
use tool_mesh.Authz.Embedded.InSync.{check-decided, decided}
use tool_mesh.Authz.Embedded.Batch.{
  equivalence_key, share_key, known, remember, said, use_known, Decided, batch_loop, check_batch,
}
use tool_mesh.Authz.Embedded.Batch.Keys.{equivalence_key-SameButTool}
use tool_mesh.Authz.Embedded.Batch.Agree.{names, allows-same}
use tool_mesh.Authz.Rules.{Rules, allows}

-- The tools that the engine knows to have rules of their own are all that the rules name.
abbrev pub Tracks : Embedded → Rules → Type 0
Tracks e r =
    (tool : String)
    → contains_object e.tool_grants (named "tool" tool) ≡ false
    → names r tool ≡ false

abbrev pub AllFew : Embedded → List Request → Type 0
AllFew e [] = Unit
AllFew e (r ∷ rs) = (length (context_tuples e.kits r) ≤ max_contextual_tuples) × AllFew e rs

module _ (engine : Engine) (e : Embedded) (rules : Rules) (evaluates : Evaluates engine)
    (sync : InSync e rules) (tracks : Tracks e rules) where
  abbrev answer : Request → Bool
  answer r = said (check engine e r)

  -- What is known under a key is what any request with that key is answered.
  abbrev Sound : Decided → Type 0
  Sound known_answers =
      (r : Request) (b : Bool)
      → length (context_tuples e.kits r) ≤ max_contextual_tuples
      → known known_answers (share_key e r) ≡ some b
      → answer r ≡ b

  said-decided : (b : Bool) → said (decided b) ≡ b
  said-decided true = refl
  said-decided false = refl

  check-unnamed :
      (r : Request) → (r.user_id == "" || r.tool == "") ≡ true → check engine e r ≡ denied
  unfolding check
  check-unnamed r h = rw h refl

  answer-allows :
      (r : Request)
      → length (context_tuples e.kits r) ≤ max_contextual_tuples
      → answer r ≡ (if r.user_id == "" || r.tool == "" then false else allows rules r)
  answer-allows r few = elim (Bool-cases (r.user_id == "")) [
    | inl anonymous ↦ rw anonymous (ap said (check-unnamed r (ground (arith, anonymous))) ∙ refl)
    | inr user ↦ elim (Bool-cases (r.tool == "")) [
      | inl no_tool ↦ rw (user, no_tool) (ap said (check-unnamed r (ground (arith, no_tool))))
      | inr tool ↦
          rw (user, tool)
            (ap said (check-decided engine e rules r evaluates sync user tool few)
              ∙ said-decided (allows rules r))
    ]
  ]

  key_free :
      (r : Request)
      → (share_key e r == "") ≡ false
      → (contains_object e.tool_grants (named "tool" r.tool) ≡ false)
        × (share_key e r ≡ equivalence_key r)
  unfolding share_key
  key_free r h = elim (Bool-cases (contains_object e.tool_grants (named "tool" r.tool))) [
    | inl own ↦ absurd (false≢true (sym (rw own at h)))
    | inr free ↦ rw free (refl, refl)
  ]

  -- Requests with the same key are answered the same.
  answer-same :
      (r s : Request)
      → length (context_tuples e.kits r) ≤ max_contextual_tuples
      → length (context_tuples e.kits s) ≤ max_contextual_tuples
      → (share_key e r == "") ≡ false
      → share_key e r ≡ share_key e s
      → answer r ≡ answer s
  unfolding share_key
  answer-same r s few_r few_s shared same =
      let own_r = key_free r shared in
      let own_s = key_free s (sym (ap (λ k. k == "") same) ∙ shared) in
      let agree = equivalence_key-SameButTool r s (sym own_r.1 ∙ same ∙ own_s.1) in
      answer-allows r few_r
      ∙ ground (
        arith,
        ap (λ u. u == "") agree.user,
        agree.unnamed,
        allows-same r s agree rules (tracks r.tool own_r.0) (tracks s.tool own_s.0),
      )
      ∙ sym (answer-allows s few_s)

  remember-Sound :
      (so_far : Decided) (r : Request) (v : Bool)
      → length (context_tuples e.kits r) ≤ max_contextual_tuples
      → answer r ≡ v
      → Sound so_far
      → Sound (if share_key e r == "" then so_far else insert (share_key e r) v so_far)
  remember-Sound so_far r v few_r is_v sound = elim (Bool-cases (share_key e r == "")) [
    | inl private ↦ rw private sound
    | inr shared ↦ rw shared λ s b few_s h. elim (Bool-cases (share_key e s == "")) [
      | inl hidden ↦ ground (arith, hidden, h)
      | inr open_key ↦ elim (Bool-cases (share_key e r == share_key e s)) [
        | inl same ↦
            let keys = (eq_iff (share_key e r) (share_key e s)).0 same in
            sym (answer-same r s few_r few_s shared keys)
            ∙ is_v
            ∙ ground
                (arith, h, open_key, same, lookup-insert (share_key e r) (share_key e s) v so_far)
        | inr other ↦ sound s b few_s (
            ground
              (arith, h, open_key, other, lookup-insert (share_key e r) (share_key e s) v so_far))
      ]
    ]
  ]

  remember-answer :
      (so_far : Decided) (r : Request) (a : Answer)
      → length (context_tuples e.kits r) ≤ max_contextual_tuples
      → check engine e r ≡ a
      → Sound so_far
      → Sound (remember so_far (share_key e r) a)
  remember-answer so_far r allowed few is_a sound =
      remember-Sound so_far r true few (ap said is_a) sound
  remember-answer so_far r denied few is_a sound =
      remember-Sound so_far r false few (ap said is_a) sound
  remember-answer so_far r (failed x) few is_a sound = sound

  use_known-answers :
      (r : Request) (k : Option Bool) (fresh rest answers : List Bool)
      → fresh ≡ answer r ∷ answers
      → rest ≡ answers
      → ((b : Bool) → k ≡ some b → answer r ≡ b)
      → use_known k fresh rest ≡ answer r ∷ answers
  use_known-answers r none fresh rest answers f g h = f
  use_known-answers r (some b) fresh rest answers f g h =
      ap₂ (λ (x : Bool) (bs : List Bool). x ∷ bs) (sym (h b refl)) g

  batch_loop-answers :
      (rs : List Request) (so_far : Decided)
      → AllFew e rs
      → Sound so_far
      → batch_loop engine e rs so_far ≡ map answer rs
  unfolding batch_loop
  batch_loop-answers [] so_far few sound = refl
  batch_loop-answers (r ∷ rs) so_far (few_r, few) sound =
      let a = check engine e r in
      use_known-answers r (known so_far (share_key e r)) _ _ (map answer rs)
        (ap (λ bs. said a ∷ bs)
          (batch_loop-answers rs (remember so_far (share_key e r) a) few
            (remember-answer so_far r a few_r refl sound)))
        (batch_loop-answers rs so_far few sound) (λ b found. sound r b few_r found)

  nothing_known : Sound []
  unfolding lookup
  nothing_known r b few h = ground (arith, h)

  -- Where the engine decides as the model does, holds these rules and knows every tool that they
  -- name, and no request has too many contextual tuples, CheckBatch answers each request as a check
  -- of it alone does, however many share a check.
  pub check_batch-answers :
      (rs : List Request)
      → AllFew e rs
      → check_batch engine e rs ≡ map (λ r. said (check engine e r)) rs
  unfolding check_batch
  check_batch-answers rs few = batch_loop-answers rs [] few nothing_known
