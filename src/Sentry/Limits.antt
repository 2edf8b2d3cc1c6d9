-- ===== src/Sentry/Limits.antt =====
-- The limits on one envelope of internal/sentry/envelope.go, whatever its body.
use mathlib.Core.Path.{subst}
use crashcart.Base.{
  ℕ, ap, zero, suc, ◌-◌, ◌≤◌, ◌<◌, ◌≡◌, false, ◌||◌, List, [], ◌∷◌, Option, none, some, arith, leb,
  ltb, take, length, Bool-cases, inl, inr, All, All-append, length-append, length-take-le,
}
use crashcart.Base.Text.{Bytes, codes, str_eq, or_else}
use crashcart.Sentry.Json.{Library, ItemHeader, EnvelopeHeader, ClientReportCount}
use crashcart.Sentry.Event.{Event}
use crashcart.Sentry.Id.{parse_id}
use crashcart.Sentry.Sessions.{Session, parse_sessions}
use crashcart.Sentry.Parse.{parse_event}
use crashcart.Sentry.Reports.{
  UserReport, CheckIn, parse_user_report, parse_client_report, parse_check_in,
}
use crashcart.Sentry.Envelope.{
  Envelope, Attachment, attachment_of, Context, handle_item, other_item, add_event, add_sessions,
  add_attachment, add_user_report, add_check_in, drop_items, add_client_report, item_step,
  parse_step, parse_items, parse, empty_envelope, header_on, cut_line, split_body, context_of,
  with_header,
}

abbrev IsSmall : Attachment → Type 0
IsSmall a = length a.content ≤ 8388608

-- The limits: one event over `MaxEvents` is what the request is refused by.
unfoldable pub IsLimited : Envelope → Type 0
IsLimited env =
    (length env.events ≤ 501)
    × (length env.sessions ≤ 5000)
    × (length env.attachments ≤ 8)
    × All (λ (a : Attachment). length a.content ≤ 8388608) env.attachments

add_event-IsLimited :
    (o : Option Event) (env : Envelope)
    → IsLimited env
    → ltb 500 (length env.events) ≡ false
    → IsLimited (add_event o env)
unfolding IsLimited
add_event-IsLimited none env h e = h
add_event-IsLimited (some ev) env (n, s, a, all) e =
    (rw (length-append env.events (ev ∷ [])) (ground arith), s, a, all)

add_sessions-IsLimited :
    (ss : List Session) (env : Envelope) → IsLimited env → IsLimited (add_sessions ss env)
unfolding IsLimited add_sessions
add_sessions-IsLimited ss env (ev, s, a, all) = (
  ev,
  rw (length-append env.sessions (take (5000 - length env.sessions) ss))
      (omega (arith, s, length-take-le (5000 - length env.sessions) ss)),
  a,
  all,
)

add_attachment-IsLimited :
    (ih : ItemHeader) (body : Bytes) (env : Envelope)
    → IsLimited env
    → IsLimited (add_attachment ih body env)
unfolding IsLimited add_attachment
add_attachment-IsLimited ih body env (ev, s, n, all) =
    elim (Bool-cases (leb 8 (length env.attachments) || ltb 8388608 (length body))) [
      | inl e ↦ rw e (ev, s, n, all)
      | inr e ↦
          let small : length body ≤ 8388608 = ground arith in
          let room : length env.attachments < 8 = ground arith in
          rw e (
            ev,
            s,
            rw (length-append env.attachments (attachment_of ih body ∷ [])) (omega (arith, room)),
            All-append (λ (a : Attachment). length a.content ≤ 8388608) env.attachments
                (attachment_of ih body ∷ []) all (small, tt),
          )
    ]

add_user_report-IsLimited :
    (o : Option UserReport) (env : Envelope) → IsLimited env → IsLimited (add_user_report o env)
unfolding IsLimited
add_user_report-IsLimited none env h = h
add_user_report-IsLimited (some ur) env h = h

add_check_in-IsLimited :
    (o : Option CheckIn) (env : Envelope) → IsLimited env → IsLimited (add_check_in o env)
unfolding IsLimited
add_check_in-IsLimited none env h = h
add_check_in-IsLimited (some ci) env h = h

drop_items-IsLimited : (n : ℕ) (env : Envelope) → IsLimited env → IsLimited (drop_items n env)
unfolding IsLimited
drop_items-IsLimited n env h = h

client_report-IsLimited :
    (r : List ClientReportCount × ℕ) (env : Envelope)
    → IsLimited env
    → IsLimited (add_client_report r env)
unfolding IsLimited
client_report-IsLimited r env h = h

module _ (lib : Library) (ctx : Context) where
  other_item-IsLimited :
      (ih : ItemHeader) (body : Bytes) (env : Envelope)
      → IsLimited env
      → IsLimited (other_item lib ctx ih body env)
  unfolding other_item
  other_item-IsLimited ih body env h =
      elim (Bool-cases (str_eq ih.item_type (codes "attachment"))) [
        | inl e ↦ rw e (add_attachment-IsLimited ih body env h)
        | inr e ↦ elim (Bool-cases (str_eq ih.item_type (codes "user_report"))) [
          | inl f ↦
              rw (e, f)
                (add_user_report-IsLimited (parse_user_report lib ctx.header_event_id body) env h)
          | inr f ↦ elim (Bool-cases (str_eq ih.item_type (codes "client_report"))) [
            | inl g ↦ rw (e, f, g) (client_report-IsLimited (parse_client_report lib body) env h)
            | inr g ↦ elim (Bool-cases (str_eq ih.item_type (codes "check_in"))) [
              | inl k ↦ rw (e, f, g, k) (add_check_in-IsLimited (parse_check_in lib body) env h)
              | inr k ↦ rw (e, f, g, k) (drop_items-IsLimited 1 env h)
            ]
          ]
        ]
      ]

  handle_item-IsLimited :
      (ih : ItemHeader) (body : Bytes) (env : Envelope)
      → IsLimited env
      → IsLimited (handle_item lib ctx ih body env)
  unfolding handle_item
  handle_item-IsLimited ih body env h =
      let dropped = drop_items-IsLimited 1 env h in
      elim (Bool-cases (str_eq ih.item_type (codes "event"))) [
        | inl e ↦ elim (Bool-cases (ltb 500 (length env.events))) [
          | inl f ↦ rw (e, f) dropped
          | inr f ↦
              rw (e, f)
                (add_event-IsLimited (parse_event lib ctx.header_event_id ctx.fallback body ctx.now)
                  env h f)
        ]
        | inr e ↦
            elim (Bool-cases
              (str_eq ih.item_type (codes "session") || str_eq ih.item_type (codes "sessions"))) [
                | inl f ↦ elim (Bool-cases (leb 5000 (length env.sessions))) [
                  | inl g ↦ rw (e, f, g) dropped
                  | inr g ↦
                      rw (e, f, g) (add_sessions-IsLimited (parse_sessions lib body ctx.now) env h)
                ]
                | inr f ↦ rw (e, f) (other_item-IsLimited ih body env h)
              ]
      ]

  item_step-IsLimited :
      (b : Bytes) (env : Envelope) (o : Option ItemHeader)
      → IsLimited env
      → IsLimited (item_step lib ctx b env o).1
  item_step-IsLimited b env none h = h
  item_step-IsLimited b env (some ih) h =
      handle_item-IsLimited ih (split_body ih.item_length b).0 env h

  parse_items-IsLimited :
      (fuel : ℕ) (b : Bytes) (env next : Envelope)
      → IsLimited env
      → parse_items lib ctx fuel b env ≡ some next
      → IsLimited next
  unfolding parse_items parse_step
  parse_items-IsLimited fuel [] env next h e = subst IsLimited (ap (λ o. or_else o env) e) h
  parse_items-IsLimited zero (c ∷ b) env next h e = ground arith
  parse_items-IsLimited (suc fuel) (c ∷ b) env next h e =
      let cut = cut_line (c ∷ b) in
      parse_items-IsLimited fuel (item_step lib ctx cut.1 env (header_on lib cut.0)).0
        (item_step lib ctx cut.1 env (header_on lib cut.0)).1 next
        (item_step-IsLimited cut.1 env (header_on lib cut.0) h) e

empty_IsLimited : (id : Bytes) → IsLimited (record empty_envelope { event_id = id })
unfolding IsLimited
empty_IsLimited id = (ground arith, ground arith, ground arith, tt)

parsed_IsLimited :
    (lib : Library) (body : Bytes) (now : ℕ) (env : Envelope)
    → parse lib body now ≡ some env
    → IsLimited env
unfolding parse
parsed_IsLimited lib body now env e = limited (lib.envelope_header_of (cut_line body).0) e
  where
    limited :
        (o : Option EnvelopeHeader)
        → with_header lib now (cut_line body).1 o ≡ some env
        → IsLimited env
    limited none e = subst IsLimited (ap (λ o. or_else o env) e) (empty_IsLimited [])
    limited (some hdr) e =
        parse_items-IsLimited lib (context_of lib hdr now) (length (cut_line body).1)
          (cut_line body).1
          (record empty_envelope { event_id = or_else (parse_id hdr.event_id) [] }) env
          (empty_IsLimited (or_else (parse_id hdr.event_id) [])) e

-- Whatever the body, `Parse` holds at most 501 events, 5000 sessions and 8 attachments of at most 8 MB
-- each.
pub parse-limited :
    (lib : Library) (body : Bytes) (now : ℕ) (env : Envelope)
    → parse lib body now ≡ some env
    → (length env.events ≤ 501)
      × (length env.sessions ≤ 5000)
      × (length env.attachments ≤ 8)
      × All (λ (a : Attachment). length a.content ≤ 8388608) env.attachments
unfolding IsLimited
parse-limited lib body now env e = parsed_IsLimited lib body now env e
