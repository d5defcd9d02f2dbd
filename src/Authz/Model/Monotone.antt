-- ===== src/Authz/Model/Monotone.antt =====
-- internal/authz/model.fga: fewer grants and more denies allow no more.
use tool_mesh.Prelude.{
  String, Bool, true, false, ◌&&◌, ◌||◌, List, [], ◌∷◌, ◌++◌, ◌==◌, eq_iff, any, In, any-In, ◌≡◌,
  inl, inr, refl, sym, ap, ◌∙◌, arith, any-append, any-ext, apart,
}
use tool_mesh.Authz.Kit.Laws.{any_mono}
use tool_mesh.Authz.Tuples.{Object, same_object, Subject, TupleKey, executor, blocked}
use tool_mesh.Authz.Model.{
  is_group, in_group, in_plan, includes, related, related_from, may_execute, is_blocked,
  can_execute,
}

-- A relation that only contextual tuples have.
abbrev pub is_contextual : String → Bool
is_contextual r =
    is_group r || r == "instance" || r == "backend" || r == "access_class" || r == "backend_access"

abbrev pub NoContext : List TupleKey → Type 0
NoContext ts = (t : TupleKey) → In t ts → is_contextual t.relation ≡ false

-- The grants of `s` are among those of `x`, and the denies of `x` are among those of `s`.
pub record Within (s x : List TupleKey) : Type 0 where
  pub grants : (t : TupleKey) → t.relation ≡ executor → In t s → In t x
  pub denies : (t : TupleKey) → t.relation ≡ blocked → In t x → In t s

pub any_none_of :
    (p : TupleKey → Bool) (ts : List TupleKey)
    → ((t : TupleKey) → In t ts → p t ≡ false)
    → any p ts ≡ false
any_none_of p [] h = refl
any_none_of p (t ∷ ts) h = ground (arith, h t (inl refl), any_none_of p ts (λ x i. h x (inr i)))

pub any_mono_In :
    (p q : TupleKey → Bool) (xs ys : List TupleKey)
    → ((t : TupleKey) → p t ≡ true → In t xs → In t ys × (q t ≡ true))
    → any p xs ≡ true
    → any q ys ≡ true
any_mono_In p q xs ys h a =
    let (t, i, hit) = (any-In p xs).0 a in let (j, also) = h t hit i in (any-In q ys).1 (t, j, also)

module _ (context : List TupleKey) where
  module _ (s : List TupleKey) (known : NoContext s) where
    any_context :
        (p : TupleKey → Bool)
        → ((t : TupleKey) → is_contextual t.relation ≡ false → p t ≡ false)
        → any p (s ++ context) ≡ any p context
    any_context p h =
        any-append p s context
        ∙ ap (λ b. b || any p context) (any_none_of p s (λ t i. h t (known t i)))

    in_group-context : (u x : Subject) → in_group (s ++ context) u x ≡ in_group context u x
    unfolding in_group
    in_group-context u x = any_context _ (λ t h. ground (arith, h))

    in_plan-context : (u x : Subject) → in_plan (s ++ context) u x ≡ in_plan context u x
    unfolding in_plan
    in_plan-context u x =
        any_context _ (λ t h. ground (arith, h))
        ∙ any-ext _ _ context (λ t. ground (arith, in_group-context u t.user))

    includes-context : (u x : Subject) → includes (s ++ context) u x ≡ includes context u x
    unfolding includes
    includes-context u x = ground (arith, in_group-context u x, in_plan-context u x)

    related-context :
        (relation : String) (u : Subject) (o : Object)
        → related (s ++ context) relation u o
          ≡ any
              (λ t. t.relation == relation && same_object t.object o && includes context u t.user)
              (s ++ context)
    unfolding related
    related-context relation u o =
        any-ext _ _ (s ++ context) (λ t. ground (arith, includes-context u t.user))

    related_from-context :
        (via relation : String) (u : Subject) (tool : Object)
        → is_contextual via ≡ true
        → related_from (s ++ context) via relation u tool
          ≡ any
              (λ t.
                t.relation == via
                && same_object t.object tool
                && related (s ++ context) relation u t.user.object)
              context
    unfolding related_from
    related_from-context via relation u tool c = any_context _ (λ t h.
        ap (λ b. b && same_object t.object tool && related (s ++ context) relation u t.user.object)
          (apart is_contextual t.relation via h c))

  module _ (s x : List TupleKey) (known_s : NoContext s) (known_x : NoContext x)
      (within : Within s x) where
    related-executor_mono :
        (u : Subject) (o : Object)
        → related (s ++ context) executor u o ≡ true
        → related (x ++ context) executor u o ≡ true
    related-executor_mono u o h =
        let p : TupleKey → Bool =
          λ t. t.relation == executor && same_object t.object o && includes context u t.user in
        let mono =
          any_mono_In p p s x (λ t hit i.
            (within.grants t (ground (arith, hit, eq_iff t.relation executor)) i, hit)) in
        ground (
          arith,
          h,
          related-context s known_s executor u o,
          related-context x known_x executor u o,
          any-append p s context,
          any-append p x context,
          mono,
        )

    related-blocked_mono :
        (u : Subject) (o : Object)
        → related (x ++ context) blocked u o ≡ true
        → related (s ++ context) blocked u o ≡ true
    related-blocked_mono u o h =
        let p : TupleKey → Bool =
          λ t. t.relation == blocked && same_object t.object o && includes context u t.user in
        let mono =
          any_mono_In p p x s (λ t hit i.
            (within.denies t (ground (arith, hit, eq_iff t.relation blocked)) i, hit)) in
        ground (
          arith,
          h,
          related-context s known_s blocked u o,
          related-context x known_x blocked u o,
          any-append p s context,
          any-append p x context,
          mono,
        )

    from_mono :
        (a b : List TupleKey) (via relation : String) (u : Subject) (tool : Object)
        → NoContext a
        → NoContext b
        → is_contextual via ≡ true
        → ((o : Object)
            → related (a ++ context) relation u o ≡ true
            → related (b ++ context) relation u o ≡ true)
        → related_from (a ++ context) via relation u tool ≡ true
        → related_from (b ++ context) via relation u tool ≡ true
    from_mono a b via relation u tool ka kb c mono h =
        related_from-context b kb via relation u tool c
        ∙ any_mono _ _ context (λ t hit. ground (arith, hit, mono t.user.object))
            (sym (related_from-context a ka via relation u tool c) ∙ h)

    may_execute_mono :
        (u : Subject) (tool : Object)
        → may_execute (s ++ context) u tool ≡ true
        → may_execute (x ++ context) u tool ≡ true
    unfolding may_execute
    may_execute_mono u tool h =
        let up : (via : String)
            → is_contextual via ≡ true
            → related_from (s ++ context) via executor u tool ≡ true
            → related_from (x ++ context) via executor u tool ≡ true =
          λ via c. from_mono s x via executor u tool known_s known_x c (related-executor_mono u) in
        ground (
          arith,
          h,
          related-executor_mono u tool,
          up "instance" refl,
          up "backend" refl,
          up "access_class" refl,
          up "backend_access" refl,
        )

    is_blocked_mono :
        (u : Subject) (tool : Object)
        → is_blocked (x ++ context) u tool ≡ true
        → is_blocked (s ++ context) u tool ≡ true
    unfolding is_blocked
    is_blocked_mono u tool h =
        let up : (via : String)
            → is_contextual via ≡ true
            → related_from (x ++ context) via blocked u tool ≡ true
            → related_from (s ++ context) via blocked u tool ≡ true =
          λ via c. from_mono x s via blocked u tool known_x known_s c (related-blocked_mono u) in
        ground (
          arith,
          h,
          related-blocked_mono u tool,
          up "instance" refl,
          up "backend" refl,
          up "access_class" refl,
        )

    pub can_execute_mono :
        (u : Subject) (tool : Object)
        → can_execute (s ++ context) u tool ≡ true
        → can_execute (x ++ context) u tool ≡ true
    unfolding can_execute
    can_execute_mono u tool h = ground (arith, h, may_execute_mono u tool, is_blocked_mono u tool)
