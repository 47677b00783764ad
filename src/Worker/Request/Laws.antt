-- ===== src/Worker/Request/Laws.antt =====
-- What a request carries.
use mathlib.Core.Bool.{or-true}
use express_send.Common.{
  ◌≡◌, ◌≢◌, refl, sym, ap, ◌∙◌, inl, inr, ◌⊎◌, Bool-cases, Bool, true, false, ◌||◌, not, Option,
  none, some, [], arith,
}
use express_send.Text.{eqb}
use express_send.Text.Laws.{eqb_iff, neq_of_eqb, eqb_of_neq}
use express_send.Worker.{SendParams}
use express_send.Worker.Request.{
  SendNotification, PushOpts, SendOpts, SendRequest, message_part, carrier, push_opts,
  delivery_part, build_request, silent_opts,
}

-- What a notification and the options say, an absent one what its absence means.
abbrev pub is_true : Option Bool → Bool
is_true none = false
is_true (some b) = b

abbrev pub is_off : Option Bool → Bool
is_off none = false
is_off (some b) = not b

abbrev pub absent_notification : SendNotification
absent_notification = record { status = []; body = []; metadata = []; mentions = []; opts = none }

abbrev pub notification_or_none : Option SendNotification → SendNotification
notification_or_none (some n) = n
notification_or_none none = absent_notification

abbrev pub push_or_none : Option PushOpts → PushOpts
push_or_none (some o) = o
push_or_none none = record { send = none; force_dnd = false }

abbrev pub opts_or_none : Option SendOpts → SendOpts
opts_or_none (some o) = o
opts_or_none none = record { stealth_mode = false; notification_opts = none }

-- The parameters that a request is read as.
unfoldable pub read_params : SendRequest → SendParams
read_params r =
    let n = notification_or_none r.notification in
    let o = opts_or_none r.opts in
    let push = push_or_none o.notification_opts in
    record {
      chat_id = r.group_chat_id;
      message = n.body;
      status = n.status;
      file = r.file;
      metadata = n.metadata;
      mentions = n.mentions;
      silent = is_true n.opts;
      stealth = o.stealth_mode;
      force_dnd = push.force_dnd;
      no_notify = is_off push.send;
    }

-- The notification of parameters with a text, metadata or mentions.
whole_notification : SendParams → SendNotification
whole_notification p = record {
  status = p.status;
  body = p.message;
  metadata = p.metadata;
  mentions = p.mentions;
  opts = silent_opts p.silent;
}

-- There is something for a notification to carry.
unfoldable pub HasNotification : SendParams → Type 0
HasNotification p = (p.message ≢ []) ⊎ (p.metadata ≢ []) ⊎ (p.mentions ≢ [])

with_message :
    (p : SendParams) → p.message ≢ [] → carrier p (message_part p) ≡ some (whole_notification p)
unfolding carrier message_part whole_notification
with_message p ne = rw (eqb_of_neq p.message [] ne, message_part, carrier) refl

without_message :
    (p : SendParams)
    → p.message ≡ []
    → (not (eqb p.metadata []) || not (eqb p.mentions [])) ≡ true
    → carrier p (message_part p) ≡ some (whole_notification p)
unfolding carrier message_part whole_notification
without_message p empty carried =
    rw ((eqb_iff p.message []).1 empty, message_part, carried, carrier)
      (ap
        (λ t. some (record {
          status = p.status;
          body = t;
          metadata = p.metadata;
          mentions = p.mentions;
          opts = silent_opts p.silent;
        }))
        (sym empty))

notification-whole :
    (p : SendParams) → HasNotification p → carrier p (message_part p) ≡ some (whole_notification p)
unfolding HasNotification
notification-whole p has = elim (Bool-cases (eqb p.message [])) [
  | inr e ↦ with_message p (neq_of_eqb p.message [] e)
  | inl e ↦
      let empty = (eqb_iff p.message []).0 e in
      without_message p empty (elim has [
        | inl ne ↦ absurd (ne empty)
        | inr (inl ne) ↦ rw (eqb_of_neq p.metadata [] ne) refl
        | inr (inr ne) ↦ rw (eqb_of_neq p.mentions [] ne) (or-true (not (eqb p.metadata [])))
      ])
]

silent_opts-read : (b : Bool) → is_true (silent_opts b) ≡ b
silent_opts-read true = refl
silent_opts-read false = refl

-- The options as they are read.
delivery_part-read :
    (p : SendParams)
    → let o = opts_or_none (delivery_part p) in
      let push = push_or_none o.notification_opts in
      (o.stealth_mode ≡ p.stealth)
      × (push.force_dnd ≡ p.force_dnd)
      × (is_off push.send ≡ p.no_notify)
unfolding delivery_part push_opts
delivery_part-read p = grind arith

-- A request with a text, metadata or mentions carries all the parameters that it is built from: reading
-- it gives them back, also where it has a file only besides its metadata, and whatever the options are.
pub read_params-build_request :
    (p : SendParams) → HasNotification p → read_params (build_request p) ≡ p
unfolding build_request read_params whole_notification
read_params-build_request p has =
    let carried = notification-whole p has in
    let silent =
      ap (λ n. is_true (notification_or_none n).opts) carried ∙ silent_opts-read p.silent in
    let (stealth, force_dnd, no_notify) = delivery_part-read p in
    λ i. record {
      chat_id = p.chat_id;
      message = (notification_or_none (carried i)).body;
      status = (notification_or_none (carried i)).status;
      file = p.file;
      metadata = (notification_or_none (carried i)).metadata;
      mentions = (notification_or_none (carried i)).mentions;
      silent = silent i;
      stealth = stealth i;
      force_dnd = force_dnd i;
      no_notify = no_notify i;
    }
