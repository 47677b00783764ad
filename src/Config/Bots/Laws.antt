-- ===== src/Config/Bots/Laws.antt =====
-- What the checks on the bots of a configuration establish.
use express_send.Common.{
  ◌≡◌, ◌≢◌, refl, sym, ◌∙◌, subst, ◌⊎◌, eq_of_some, inl, inr, Bool-cases, Option-cases, arith, none,
  some, List, [], ◌∷◌, All, ok, ok-injective,
}
use express_send.Text.{Text, eqb, lookup}
use express_send.Text.Laws.{eqb_iff, neq_of_eqb, eqb_of_neq}
use express_send.Text.Sort.{sort_keys}
use express_send.Text.Sort.Laws.{All-sort_keys}
use express_send.Config.Types.{BotSettings}
use express_send.Config.Bots.{Bots, bot_conflict_with, check_bot_ids, validate_bot_ids, bot_by_id}

-- What a client of a bot depends on.
pub SameRuntime : BotSettings → BotSettings → Type 0
SameRuntime a b =
    (a.host ≡ b.host) × (a.secret ≡ b.secret) × (a.token ≡ b.token) × (a.timeout ≡ b.timeout)

-- Every bot with the id runs as `rep` does.
pub RunsAs : Text → BotSettings → Text × BotSettings → Type 0
RunsAs id rep p = p.1.id ≡ id → SameRuntime p.1 rep

bot_conflict_with-SameRuntime :
    (name : Text) (bot : BotSettings) (prev : Text × BotSettings)
    → bot_conflict_with name bot prev ≡ none
    → SameRuntime bot prev.1
unfolding bot_conflict_with SameRuntime
bot_conflict_with-SameRuntime name bot (alias, prev) h = ground (
  arith,
  eqb_iff bot.host prev.host,
  eqb_iff bot.secret prev.secret,
  eqb_iff bot.token prev.token,
)

-- What a step of the loop has found.
check_bot_ids_step :
    (seen : List (Text × (Text × BotSettings))) (name : Text) (bot : BotSettings) (bots : Bots)
    → check_bot_ids seen ((name, bot) ∷ bots) ≡ none
    → ((bot.id ≡ []) × (check_bot_ids seen bots ≡ none))
      ⊎ ((lookup bot.id seen ≡ none) × (check_bot_ids ((bot.id, (name, bot)) ∷ seen) bots ≡ none))
      ⊎ ((prev : Text × BotSettings) × (lookup bot.id seen ≡ some prev)
          × SameRuntime bot prev.1
          × (check_bot_ids seen bots ≡ none))
unfolding check_bot_ids
check_bot_ids_step seen name bot bots h = elim (Bool-cases (eqb bot.id [])) [
  | inl e ↦ inl ((eqb_iff bot.id []).0 e, rw e at h)
  | inr e ↦ elim (Option-cases (lookup bot.id seen)) [
    | inl k ↦ inr (inl (k, rw (e, k) at h))
    | inr (prev, k) ↦ elim (Option-cases (bot_conflict_with name bot prev)) [
      | inl m ↦
          inr (inr (prev, k, bot_conflict_with-SameRuntime name bot prev m, rw (e, k, m) at h))
      | inr (bad, m) ↦ absurd (let no_way = rw (e, k, m) at h in cc)
    ]
  ]
]

-- With the bot of an id seen, every later one with the id runs as it does.
check_bot_ids-seen :
    (seen : List (Text × (Text × BotSettings))) (bots : Bots) (id : Text)
    (prev : Text × BotSettings)
    → id ≢ []
    → lookup id seen ≡ some prev
    → check_bot_ids seen bots ≡ none
    → All (RunsAs id prev.1) bots
unfolding RunsAs
check_bot_ids-seen seen [] id prev ne at_id h = tt
check_bot_ids-seen seen ((name, bot) ∷ bots) id prev ne at_id h =
    elim (check_bot_ids_step seen name bot bots h) [
      | inl (e, k) ↦
          (λ same. absurd (ne (sym same ∙ e)), check_bot_ids-seen seen bots id prev ne at_id k)
      | inr (inl (e, k)) ↦
          let other : bot.id ≢ id = λ same. absurd (let bad = rw same at e in cc) in
          (
            λ same. absurd (other same),
            check_bot_ids-seen ((bot.id, (name, bot)) ∷ seen) bots id prev ne
                (unfold lookup in rw (eqb_of_neq bot.id id other) at_id) k,
          )
      | inr (inr (other, e, runs, k)) ↦ (
        λ same.
            subst (λ (x : Text × BotSettings). SameRuntime bot x.1)
              (eq_of_some (sym (rw same at e) ∙ at_id)) runs,
        check_bot_ids-seen seen bots id prev ne at_id k,
      )
    ]

-- The first bot of an id stands for all with the id.
check_bot_ids-rep :
    (seen : List (Text × (Text × BotSettings))) (bots : Bots) (id : Text)
    → id ≢ []
    → check_bot_ids seen bots ≡ none
    → (rep : BotSettings) × All (RunsAs id rep) bots
unfolding RunsAs
check_bot_ids-rep seen [] id ne h =
    (record { host = []; id = []; secret = []; token = []; timeout = 0 }, tt)
check_bot_ids-rep seen ((name, bot) ∷ bots) id ne h = elim (Bool-cases (eqb bot.id id)) [
  | inl e ↦
      let same = (eqb_iff bot.id id).0 e in
      elim (check_bot_ids_step seen name bot bots h) [
        | inl (empty, k) ↦ absurd (ne (sym same ∙ empty))
        | inr (inl (_, k)) ↦ (
          bot,
          (
            λ _. unfold SameRuntime in (refl, refl, refl, refl),
            check_bot_ids-seen ((bot.id, (name, bot)) ∷ seen) bots id (name, bot) ne
                (unfold lookup in rw e refl) k,
          ),
        )
        | inr (inr (prev, k, runs, k')) ↦
            (prev.1, (λ _. runs, check_bot_ids-seen seen bots id prev ne (rw same at k) k'))
      ]
  | inr e ↦
      let other = neq_of_eqb bot.id id e in
      elim (check_bot_ids_step seen name bot bots h) [
        | inl (_, k) ↦
            let (rep, runs) = check_bot_ids-rep seen bots id ne k in
            (rep, (λ same. absurd (other same), runs))
        | inr (inl (_, k)) ↦
            let (rep, runs) = check_bot_ids-rep _ bots id ne k in
            (rep, (λ same. absurd (other same), runs))
        | inr (inr (_, _, _, k)) ↦
            let (rep, runs) = check_bot_ids-rep seen bots id ne k in
            (rep, (λ same. absurd (other same), runs))
      ]
]

bot_by_id-All :
    (P : Text × BotSettings → Type 0) (id : Text) (bots : Bots) (p : Text × BotSettings)
    → All P bots
    → bot_by_id id bots ≡ ok p
    → P p × (p.1.id ≡ id)
unfolding bot_by_id
bot_by_id-All P id [] p all h = absurd (cc)
bot_by_id-All P id ((name, bot) ∷ bots) p all h = elim (Bool-cases (eqb bot.id id)) [
  | inl e ↦
      let same = ok-injective (rw e at h) in
      subst (λ q. P q × (q.1.id ≡ id)) same (all.0, (eqb_iff bot.id id).0 e)
  | inr e ↦ bot_by_id-All P id bots p all.1 (rw e at h)
]

RunsAs-rep :
    (id : Text) (rep b : BotSettings) (bots : Bots)
    → SameRuntime b rep
    → All (RunsAs id rep) bots
    → All (RunsAs id b) bots
unfolding RunsAs SameRuntime
RunsAs-rep id rep b [] s h = tt
RunsAs-rep id rep b (p ∷ bots) (h, c, t, o) (at_p, rest) = (
  λ same. let (h', c', t', o') = at_p same in (h' ∙ sym h, c' ∙ sym c, t' ∙ sym t, o' ∙ sym o),
  RunsAs-rep id rep b bots (h, c, t, o) rest,
)

-- Where the bot ids pass the check of the worker, the bot that an id which is not empty is looked up to runs like every bot with that id:
-- it does not matter which of their names the lookup gives.
pub bot_by_id_any :
    (bots : Bots) (id : Text) (p : Text × BotSettings)
    → validate_bot_ids bots ≡ none
    → id ≢ []
    → bot_by_id id bots ≡ ok p
    → All (RunsAs id p.1) bots
unfolding validate_bot_ids
bot_by_id_any bots id p valid ne found =
    let (rep, sorted) = check_bot_ids-rep [] (sort_keys bots) id ne valid in
    let all = All-sort_keys (RunsAs id rep) bots sorted in
    let (runs, same) = bot_by_id-All (RunsAs id rep) id bots p all found in
    RunsAs-rep id rep p.1 bots (unfold RunsAs in runs same) all
