-- ===== src/Grants/Service/Holding.antt =====
-- internal/grants/service.go: the kits that a caller holds, and that an approved kit is held until
-- its grant ends.
use tool_mesh.Prelude.{ℕ, ◌<◌, true, false, List, [], ◌∷◌, ◌≡◌, ◌⊎◌, In, is_some}
use tool_mesh.Authz.Kit.{Kit, KitPart}
use tool_mesh.Grants.{Grant, Subject, subject, same_subject}
use tool_mesh.Grants.Store.{Store}
use tool_mesh.Grants.Store.Expiry.{Holds}
use tool_mesh.Grants.Service.{own_part, kit_named, covers_whole_kit}

module _ (kits : List Kit) where
  -- The part is that of a grant of the list that is not of its whole kit.
  abbrev HasPart : KitPart → List Grant → Type 0
  HasPart q [] = ⊥
  HasPart q (g ∷ gs) = ((covers_whole_kit kits g ≡ false) × In q (own_part g)) ⊎ HasPart q gs

  -- The subject's grant `g` of a kit of the catalog has not ended at `now`.
  pub record Current (now : ℕ) (who : Subject) (s : Store) (g : Grant) : Type 0 where
    pub stored : Holds g s.active_by_id
    pub in_time : now < g.expires_at
    pub same_caller : same_subject (subject g) who ≡ true
    pub defined : is_some (kit_named kits g.kit) ≡ true
