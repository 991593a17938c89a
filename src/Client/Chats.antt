-- ===== src/Client/Chats.antt =====
-- The client's operations against the calls' own: a chat's call sees what is asked of the chat.
use rusttgcalls.Prelude.{
  ℕ, Text, Bool, false, List, [], ◌∷◌, Option, none, some, if◌then◌else◌, ◌==◌, ◌≡◌, inl, inr, refl,
  ◌∙◌, ap, arith, ==_iff, Bool-cases, Option-cases,
}
use mathlib.Core.Option
use rusttgcalls.Models.{Result, ok, err, Result-cases}
use rusttgcalls.Process.{Command}
use rusttgcalls.Source.{Streams}
use rusttgcalls.StackApi.{StackApi}
use rusttgcalls.GroupCall.Base.{GroupCall, Callbacks}
use rusttgcalls.GroupCall.Base
use rusttgcalls.GroupCall.Media
use rusttgcalls.RtmpCall
use rusttgcalls.Client.{
  Call, group, rtmp, Client, events_for, stop, create_call, create_rtmp_call, on_call, switch_call,
  report, call_connect, call_pause, call_resume, call_mute, call_unmute, call_seek_by,
  call_set_source, connect, pause, resume, mute, unmute, seek_by, set_stream_sources,
}
use rusttgcalls.Client.Calls.{get, get-insert, get-insert_other, get-remove, get-remove_other}

-- The call that is there, or else another.
abbrev pub or_else {ℓ} : {A : Type ℓ} → Option A → Option A → Option A
or_else (some a) o = some a
or_else none o = o

module _ {api : StackApi} {Reader : Type 0} where
  report-calls :
      (chat : ℕ) (changed : Bool) (c : Client api Reader) → (report chat changed c).calls ≡ c.calls
  unfolding report
  report-calls chat changed c = ground arith

  switch_call-calls :
      (op : Call api Reader → Call api Reader × Result Bool) (chat : ℕ) (c : Client api Reader)
      → (switch_call op chat c).0.calls ≡ (on_call op chat c).0.calls
  unfolding switch_call
  switch_call-calls op chat c = elim (Result-cases (on_call op chat c).1) [
    | inl (changed, e) ↦ ground (arith, e, report-calls chat changed (on_call op chat c).0)
    | inr (x, e) ↦ ground (arith, e)
  ]

  on_call-get :
      {A : Type 0}
      → (op : Call api Reader → Call api Reader × Result A)
      → (other chat : ℕ) (c : Client api Reader)
      → get chat (on_call op other c).0.calls ≡ (
          if other == chat
          then Option.map (λ call. (op call).0) (get chat c.calls)
          else get chat c.calls)
  unfolding on_call
  on_call-get op other chat c = elim (Bool-cases (other == chat)) [
    | inl e ↦ elim (Option-cases (get other c.calls)) [
      | inl n ↦ ground (arith, e, n, ==_iff other chat)
      | inr (call, q) ↦
          ground (arith, e, q, ==_iff other chat, get-insert other (op call).0 c.calls)
    ]
    | inr e ↦ elim (Option-cases (get other c.calls)) [
      | inl n ↦ ground (arith, e, n)
      | inr (call, q) ↦ ground (arith, e, q, get-insert_other chat other (op call).0 c.calls e)
    ]
  ]

-- What is asked of a chat. A stack that is made for a call comes out as the argument of `creates`, and
-- nothing else happens while it is made.
pub data Request (api : StackApi) (Reader : Type 0) : Type 0 where
  pauses resumes : ℕ → Request api Reader
  mutes unmutes stops : Request api Reader
  seeks : ℕ → ℕ → Request api Reader
  connects : Text → Request api Reader
  sets : (GroupCall api Reader → GroupCall api Reader) → ℕ → Streams Reader → Request api Reader
  creates : Result api.Stack → Request api Reader
  creates_rtmp : Text → Request api Reader

module _ {api : StackApi} {Reader : Type 0} where
  -- A call that a chat without one gets, if its stack is made and has local parameters.
  abbrev pub created : Callbacks → Result api.Stack → Option (Call api Reader)
  created events (err e) = none
  created events (ok stack) =
      let call = Base.new_with_events {api = api} {Reader = Reader} stack false events in
      elim (Media.create_local_params call) [ err e ↦ none | ok json ↦ some (group call) ]

  stop-get :
      (other chat : ℕ) (c : Client api Reader)
      → get chat (stop other c).0.calls ≡ (if other == chat then none else get chat c.calls)
  unfolding stop
  stop-get other chat c = elim (Bool-cases (other == chat)) [
    | inl e ↦ elim (Option-cases (get other c.calls)) [
      | inl q ↦ ground (arith, e, q, ==_iff other chat)
      | inr (call, q) ↦ ground (arith, e, q, ==_iff other chat, get-remove other c.calls)
    ]
    | inr e ↦ elim (Option-cases (get other c.calls)) [
      | inl q ↦ ground (arith, e, q)
      | inr (call, q) ↦ ground (arith, e, q, get-remove_other chat other c.calls e)
    ]
  ]

  create_call-get :
      (made : Result api.Stack) (other chat : ℕ) (c : Client api Reader)
      → get chat (create_call (λ d. d) made other c).0.calls ≡ (
          if other == chat
          then or_else (get chat c.calls) (created (events_for c) made)
          else get chat c.calls)
  unfolding create_call
  create_call-get (err x) other chat c = elim (Option-cases (get other c.calls)) [
    | inl q ↦ ground (arith, q, ==_iff other chat)
    | inr (old, q) ↦ ground (arith, q, ==_iff other chat)
  ]
  create_call-get (ok stack) other chat c =
      let call = Base.new_with_events {api = api} {Reader = Reader} stack false (events_for c) in
      elim (Option-cases (get other c.calls)) [
        | inl q ↦ elim (Result-cases (Media.create_local_params call)) [
          | inl (json, r) ↦ elim (Bool-cases (other == chat)) [
            | inl e ↦
                ground (arith, e, q, r, ==_iff other chat, get-insert other (group call) c.calls)
            | inr e ↦ ground (arith, e, q, r, get-insert_other chat other (group call) c.calls e)
          ]
          | inr (x, r) ↦ ground (arith, q, r, ==_iff other chat)
        ]
        | inr (old, q) ↦ ground (arith, q, ==_iff other chat)
      ]

  create_rtmp-get :
      (url : Text) (other chat : ℕ) (c : Client api Reader)
      → get chat (create_rtmp_call other url c).0.calls ≡ (
          if other == chat
          then or_else (get chat c.calls) (some (rtmp (RtmpCall.new_with_events url false false)))
          else get chat c.calls)
  unfolding create_rtmp_call
  create_rtmp-get url other chat c =
      let call : Call api Reader = rtmp (RtmpCall.new_with_events url false false) in
      elim (Option-cases (get other c.calls)) [
        | inl q ↦ elim (Bool-cases (other == chat)) [
          | inl e ↦ ground (arith, e, q, ==_iff other chat, get-insert other call c.calls)
          | inr e ↦ ground (arith, e, q, get-insert_other chat other call c.calls e)
        ]
        | inr (old, q) ↦ ground (arith, q, ==_iff other chat)
      ]

module _ {api : StackApi} {Reader : Type 0} (start : Command → Result Reader)
    (seconds : ℕ → Text) where
  pub send : ℕ → Request api Reader → Client api Reader → Client api Reader
  send chat (pauses now) c = (pause now chat c).0
  send chat (resumes now) c = (resume start seconds now chat c).0
  send chat mutes c = (mute chat c).0
  send chat unmutes c = (unmute chat c).0
  send chat stops c = (stop chat c).0
  send chat (seeks now delta) c = (seek_by now chat delta c).0
  send chat (connects json) c = (connect chat json c).0
  send chat (sets wait now streams) c = (set_stream_sources start seconds wait now chat streams c).0
  send chat (creates made) c = (create_call (λ d. d) made chat c).0
  send chat (creates_rtmp url) c = (create_rtmp_call chat url c).0

  -- What a request makes of the call of its chat, if there is one, for the callbacks of the client.
  pub perform : Callbacks → Request api Reader → Option (Call api Reader) → Option (Call api Reader)
  perform events (pauses now) o = Option.map (λ call. (call_pause now call).0) o
  perform events (resumes now) o = Option.map (λ call. (call_resume start seconds now call).0) o
  perform events mutes o = Option.map (λ call. (call_mute call).0) o
  perform events unmutes o = Option.map (λ call. (call_unmute call).0) o
  perform events stops o = none
  perform events (seeks now delta) o = Option.map (λ call. (call_seek_by now delta call).0) o
  perform events (connects json) o = Option.map (λ call. (call_connect json call).0) o
  perform events (sets wait now streams) o =
      Option.map (λ call. (call_set_source start seconds wait now streams call).0) o
  perform events (creates made) o = or_else o (created events made)
  perform events (creates_rtmp url) o =
      or_else o (some (rtmp (RtmpCall.new_with_events url false false)))

  pub send_all : List (ℕ × Request api Reader) → Client api Reader → Client api Reader
  send_all [] c = c
  send_all ((chat, q) ∷ l) c = send_all l (send chat q c)

  pub perform_all :
      ℕ
      → Callbacks
      → List (ℕ × Request api Reader)
      → Option (Call api Reader)
      → Option (Call api Reader)
  perform_all chat events [] o = o
  perform_all chat events ((other, q) ∷ l) o =
      perform_all chat events l (if other == chat then perform events q o else o)

  send-get :
      (q : Request api Reader) (other chat : ℕ) (c : Client api Reader)
      → get chat (send other q c).calls
        ≡ (if other == chat then perform (events_for c) q (get chat c.calls) else get chat c.calls)
  unfolding send perform pause resume mute unmute seek_by connect set_stream_sources
  send-get (pauses now) other chat c =
      ap (get chat) (switch_call-calls (call_pause now) other c)
      ∙ on_call-get (call_pause now) other chat c
  send-get (resumes now) other chat c =
      ap (get chat) (switch_call-calls (call_resume start seconds now) other c)
      ∙ on_call-get (call_resume start seconds now) other chat c
  send-get mutes other chat c =
      ap (get chat) (switch_call-calls call_mute other c) ∙ on_call-get call_mute other chat c
  send-get unmutes other chat c =
      ap (get chat) (switch_call-calls call_unmute other c) ∙ on_call-get call_unmute other chat c
  send-get stops other chat c = stop-get other chat c
  send-get (seeks now delta) other chat c = on_call-get (call_seek_by now delta) other chat c
  send-get (connects json) other chat c = on_call-get (call_connect json) other chat c
  send-get (sets wait now streams) other chat c =
      on_call-get (call_set_source start seconds wait now streams) other chat c
  send-get (creates made) other chat c = create_call-get made other chat c
  send-get (creates_rtmp url) other chat c = create_rtmp-get url other chat c

  -- No request changes the callbacks.
  send-events :
      (q : Request api Reader) (chat : ℕ) (c : Client api Reader)
      → events_for (send chat q c) ≡ events_for c
  unfolding send pause resume mute unmute seek_by connect set_stream_sources switch_call on_call
      report stop create_call create_rtmp_call
  send-events (pauses now) chat c = ground arith
  send-events (resumes now) chat c = ground arith
  send-events mutes chat c = ground arith
  send-events unmutes chat c = ground arith
  send-events stops chat c = ground arith
  send-events (seeks now delta) chat c = ground arith
  send-events (connects json) chat c = ground arith
  send-events (sets wait now streams) chat c = ground arith
  send-events (creates made) chat c = ground arith
  send-events (creates_rtmp url) chat c = ground arith

  -- Pause, resume, mute, unmute, stop, seek, connect, the setting of a source and the creation of a call of
  -- either kind may be asked of the chats in whatever order, one after the other. Then the call of a chat
  -- comes to be what it comes to be alone, when it is asked what is asked of its chat and nothing else: a
  -- stop takes it out, a creation makes it only where there is none, and all else is done to a call
  -- that is there.
  pub send_all-get :
      (l : List (ℕ × Request api Reader)) (chat : ℕ) (c : Client api Reader)
      → get chat (send_all l c).calls ≡ perform_all chat (events_for c) l (get chat c.calls)
  unfolding send_all perform_all
  send_all-get [] chat c = refl
  send_all-get ((other, q) ∷ l) chat c =
      send_all-get l chat (send other q c)
      ∙ ap (λ e. perform_all chat e l (get chat (send other q c).calls)) (send-events q other c)
      ∙ ap (perform_all chat (events_for c) l) (send-get q other chat c)
