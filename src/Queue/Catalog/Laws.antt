-- ===== src/Queue/Catalog/Laws.antt =====
-- The catalog against the configuration that it is made of, and the cache against its updates.
use express_send.Common.{
  ◌≡◌, ◌≢◌, refl, sym, ap, subst, inl, inr, ◌⊎◌, Bool-cases, Option-cases, eq_of_some, ok-injective,
  true, ltb, ◌-◌, ◌&&◌, if◌then◌else◌, Option, none, some, ok, List, [], ◌∷◌, ◌++◌, map, All, ℕ,
  Bool, >>=-eq-ok,
}
use express_send.Text.{Text, eqb}
use express_send.Text.Laws.{eqb_refl, eqb_of_neq, neq_of_eqb}
use express_send.Text.Sort.{sort_keys}
use express_send.Text.Sort.Laws.{sort_keys-All}
use express_send.Config.Types.{Config, BotSettings, BotEntry}
use express_send.Config.Bots.{Bots, bot_by_id, bot_entries, bot_entry}
use express_send.Server.Types.{is_uuid}
use express_send.Queue.Types.{Routing, CatalogSnapshot}
use express_send.Queue.Catalog.{
  build_catalog_snapshot, find_bot, find_bot_id, resolve_bot, CatalogCache, Disk, new_catalog_cache,
  update, get,
}
use express_send.Queue.Enqueue.Routes.{named_bot, bot_part, chat_part, route_by}

-- The worker of a configuration has a bot with the id.
pub IsKnown : Bots → Text → Type 0
IsKnown bots id = (q : Text × BotSettings) × (bot_by_id id bots ≡ ok q)

IsKnown-cons :
    (p : Text × BotSettings) (bots : Bots) (id : Text) → IsKnown bots id → IsKnown (p ∷ bots) id
unfolding IsKnown bot_by_id
IsKnown-cons p bots id (q, found) = elim (Bool-cases (eqb p.1.id id)) [
  | inl e ↦ (p, rw e refl)
  | inr e ↦ (q, rw e found)
]

All-IsKnown :
    (p : Text × BotSettings) (bots ps : Bots)
    → All (λ (x : Text × BotSettings). IsKnown bots x.1.id) ps
    → All (λ (x : Text × BotSettings). IsKnown (p ∷ bots) x.1.id) ps
All-IsKnown p bots [] h = tt
All-IsKnown p bots (x ∷ ps) (at_x, h) = (IsKnown-cons p bots x.1.id at_x, All-IsKnown p bots ps h)

own_bots : (bots : Bots) → All (λ (x : Text × BotSettings). IsKnown bots x.1.id) bots
unfolding IsKnown bot_by_id
own_bots [] = tt
own_bots (p ∷ bots) = ((p, rw (eqb_refl p.1.id) refl), All-IsKnown p bots bots (own_bots bots))

find_bot-IsKnown :
    (bots ps : Bots) (alias : Text) (b : BotEntry)
    → All (λ (x : Text × BotSettings). IsKnown bots x.1.id) ps
    → find_bot alias (map bot_entry ps) ≡ some b
    → IsKnown bots b.id
unfolding find_bot
find_bot-IsKnown bots [] alias b h found = absurd (cc)
find_bot-IsKnown bots (p ∷ ps) alias b (at_p, h) found = elim (Bool-cases (eqb p.0 alias)) [
  | inl e ↦
      subst (λ (x : BotEntry). IsKnown bots x.id) (eq_of_some (rw (find_bot, e) at found)) at_p
  | inr e ↦ find_bot-IsKnown bots ps alias b h (rw (find_bot, e) at found)
]

named_bot-IsKnown :
    (revision : ℕ → ℕ → Text) (now : ℕ) (cfg : Config) (alias : Text) (b : Text × Text × Text)
    → named_bot (build_catalog_snapshot revision now cfg) alias ≡ ok b
    → IsKnown cfg.bots b.0
unfolding named_bot resolve_bot build_catalog_snapshot bot_entries
named_bot-IsKnown revision now cfg alias b h =
    elim (Option-cases (find_bot alias (map bot_entry (sort_keys cfg.bots)))) [
      | inl e ↦ absurd (let bad = rw (named_bot, resolve_bot, e) at h in cc)
      | inr (entry, e) ↦
          subst (λ (x : Text × Text × Text). IsKnown cfg.bots x.0)
            (ok-injective (rw (named_bot, resolve_bot, e) at h))
            (find_bot-IsKnown cfg.bots (sort_keys cfg.bots) alias entry
              (sort_keys-All (λ (x : Text × BotSettings). IsKnown cfg.bots x.1.id) cfg.bots
                (own_bots cfg.bots))
              e)
    ]

bot_part_cases :
    (snap : CatalogSnapshot) (bot_id bot_alias : Text) (b : Text × Text × Text)
    → bot_part snap bot_id bot_alias ≡ ok b
    → ((is_uuid bot_id ≡ true) × (b.0 ≡ bot_id)) ⊎ ((alias : Text) × (named_bot snap alias ≡ ok b))
unfolding bot_part
bot_part_cases snap bot_id bot_alias b h = elim (Bool-cases (eqb bot_id [])) [
  | inl e ↦ elim (Bool-cases (eqb bot_alias [])) [
    | inl k ↦ absurd (let bad = rw (e, k, bot_part) at h in cc)
    | inr k ↦ inr (bot_alias, rw (e, k, bot_part) at h)
  ]
  | inr e ↦ elim (Bool-cases (is_uuid bot_id)) [
    | inr k ↦ inr (bot_id, rw (e, k, bot_part) at h)
    | inl k ↦ elim (Option-cases (find_bot_id bot_id snap.bots)) [
      | inl f ↦ inl (
        k,
        sym (ap (λ (x : Text × Text × Text). x.0) (ok-injective (rw (e, k, f, bot_part) at h))),
      )
      | inr (entry, f) ↦ inl (
        k,
        sym (ap (λ (x : Text × Text × Text). x.0) (ok-injective (rw (e, k, f, bot_part) at h))),
      )
    ]
  ]
]

-- A route that a producer takes from the catalog of a worker has a chat, and its bot is either the
-- UUID that the producer was given or one that the worker finds by its id.
pub route_by-IsKnown :
    (revision : ℕ → ℕ → Text) (now : ℕ) (cfg : Config) (bot_id bot_alias chat_id : Text)
    (r : Routing)
    → route_by (build_catalog_snapshot revision now cfg) bot_id bot_alias chat_id ≡ ok r
    → (r.chat_id ≢ [])
      × (((is_uuid bot_id ≡ true) × (r.bot_id ≡ bot_id)) ⊎ IsKnown cfg.bots r.bot_id)
unfolding route_by
route_by-IsKnown revision now cfg bot_id bot_alias chat_id r h =
    let snap = build_catalog_snapshot revision now cfg in
    let (c, e1, h1) = >>=-eq-ok (chat_part snap bot_id bot_alias chat_id) _ h in
    let (b, e2, h2) = >>=-eq-ok (bot_part snap bot_id c.2) _ h1 in
    elim (Bool-cases (eqb c.0 [])) [
      | inl e ↦ absurd (let bad = rw e at h2 in cc)
      | inr e ↦
          let same = ok-injective (rw e at h2) in
          subst
            (λ (x : Routing).
              (x.chat_id ≢ [])
              × (((is_uuid bot_id ≡ true) × (x.bot_id ≡ bot_id)) ⊎ IsKnown cfg.bots x.bot_id))
            same
            (
              neq_of_eqb c.0 [] e,
              elim (bot_part_cases snap bot_id c.2 b e2) [
                | inl direct ↦ inl direct
                | inr (alias, found) ↦ inr (named_bot-IsKnown revision now cfg alias b found)
              ],
            )
    ]

-- A sequence of updates of the cache and its file.
unfoldable pub update_all :
    List (Bool × CatalogSnapshot) → CatalogCache × Disk → CatalogCache × Disk
unfolding update
update_all [] st = st
update_all ((saved, snap) ∷ updates) st = update_all updates (update saved snap st)

-- A snapshot while it is not too old.
unfoldable pub fresh_at : ℕ → ℕ → CatalogSnapshot → Option CatalogSnapshot
fresh_at now max_age s =
    if ltb 0 max_age && ltb max_age (now - s.generated_at) then none else some s

update_all-settings :
    (updates : List (Bool × CatalogSnapshot)) (st : CatalogCache × Disk)
    → ((update_all updates st).0.max_age ≡ st.0.max_age)
      × ((update_all updates st).0.path ≡ st.0.path)
unfolding update_all update
update_all-settings [] st = (refl, refl)
update_all-settings ((saved, snap) ∷ updates) st =
    update_all-settings updates (update saved snap st)

update_all-concat :
    (updates : List (Bool × CatalogSnapshot)) (saved : Bool) (snap : CatalogSnapshot)
    (st : CatalogCache × Disk)
    → update_all (updates ++ (saved, snap) ∷ []) st ≡ update saved snap (update_all updates st)
unfolding update_all
update_all-concat [] saved snap st = refl
update_all-concat ((v, s) ∷ updates) saved snap st =
    update_all-concat updates saved snap (update v s st)

get-update :
    (saved : Bool) (snap : CatalogSnapshot) (st : CatalogCache × Disk) (now : ℕ)
    → get now (update saved snap st).0 ≡ fresh_at now st.0.max_age snap
unfolding get update fresh_at
get-update saved snap st now = refl

get_restarted :
    (snap : CatalogSnapshot) (st : CatalogCache × Disk) (now : ℕ)
    → st.0.path ≢ []
    → get now (new_catalog_cache (update true snap st).1 st.0.path st.0.max_age)
      ≡ fresh_at now st.0.max_age snap
unfolding get update fresh_at new_catalog_cache
get_restarted snap st now ne =
    rw (get, new_catalog_cache, update, eqb_of_neq st.0.path [] ne, eqb_refl st.0.path) refl

-- After any updates the cache gives the last snapshot while it is not too old, whatever came before; and where
-- the cache has a file and the last write succeeded, so does a new cache on the file, as after a restart.
pub get-update_all :
    (updates : List (Bool × CatalogSnapshot)) (saved : Bool) (snap : CatalogSnapshot)
    (st : CatalogCache × Disk) (now : ℕ)
    → let out = update_all (updates ++ (saved, snap) ∷ []) st in
      (get now out.0 ≡ fresh_at now st.0.max_age snap)
      × (st.0.path ≢ []
          → saved ≡ true
          → get now (new_catalog_cache out.1 st.0.path st.0.max_age)
            ≡ fresh_at now st.0.max_age snap)
get-update_all updates saved snap st now =
    let st' = update_all updates st in
    let (age, path) = update_all-settings updates st in
    let whole = sym (update_all-concat updates saved snap st) in
    (
      subst (λ x. get now x.0 ≡ fresh_at now st.0.max_age snap) whole
          (subst (λ a. get now (update saved snap st').0 ≡ fresh_at now a snap) age
            (get-update saved snap st' now)),
      λ ne written.
          subst
            (λ x.
              get now (new_catalog_cache x.1 st.0.path st.0.max_age)
              ≡ fresh_at now st.0.max_age snap)
            whole
            (subst
              (λ v.
                get now (new_catalog_cache (update v snap st').1 st.0.path st.0.max_age)
                ≡ fresh_at now st.0.max_age snap)
              (sym written)
              (subst
                (λ p.
                  get now (new_catalog_cache (update true snap st').1 p st.0.max_age)
                  ≡ fresh_at now st.0.max_age snap)
                path
                (subst
                  (λ a.
                    get now (new_catalog_cache (update true snap st').1 st'.0.path a)
                    ≡ fresh_at now a snap)
                  age (get_restarted snap st' now (subst (λ p. p ≢ []) (sym path) ne))))),
    )
