-- ===== src/Host/FanOut.antt =====
-- Who gets a published frame.
use dots_rust.Prelude.{
  ℕ, ◌≡◌, refl, sym, ap, ◌∙◌, String, true, not, ◌&&◌, Option, none, some, List, [], ◌∷◌, ◌++◌,
  if◌then◌else◌, arith, Bool-cases, Option-cases, inl, inr, ◌==◌, is_some, append-nil,
}
use dots_rust.Prelude.Assoc.{lookup, nat_key, string_key, pair_key, IsMap, Every, lookup-Every}
use dots_rust.Container.Map.{Bytes}
use dots_rust.Container.{DotsHeader, Payload}
use dots_rust.Host.Writer.{GuestWriter, enqueue, is_empty}
use dots_rust.Host.Types.{Env, Host, Group, FilteredSub}
use dots_rust.Host.Groups.{writer_for}
use dots_rust.Host.Publish.{
  Incoming, dispatch_sub, filtered_pass, filtered_groups, incoming, enqueue_at, deliver,
  unfiltered_outbound, members, cache_and_fan_out,
}
use dots_rust.Host.Registered.{writer_in, IsLive}
use dots_rust.Host.Run.{IsWell}

-- The frames that go to a writer, in their order.
abbrev pub addressed : ℕ → List (ℕ × Bytes) → List Bytes
addressed a [] = []
addressed a ((b, frame) ∷ out) = if b == a then frame ∷ addressed a out else addressed a out

pub enqueue_all : List Bytes → GuestWriter → GuestWriter
enqueue_all [] w = w
enqueue_all (frame ∷ frames) w = enqueue_all frames (enqueue frame w)

-- A writer gets the frames that are addressed to it, in their order, and no others.
pub deliver-at :
    (out : List (ℕ × Bytes)) (writers : ℕ → GuestWriter) (a : ℕ)
    → deliver out writers a ≡ enqueue_all (addressed a out) (writers a)
unfolding deliver enqueue_all enqueue_at
deliver-at [] writers a = refl
deliver-at ((b, frame) ∷ out) writers a = elim (Bool-cases (b == a)) [
  | inl at ↦ deliver-at out (enqueue_at b frame writers) a ∙ rw (at, enqueue_at) refl
  | inr other ↦ deliver-at out (enqueue_at b frame writers) a ∙ rw (other, enqueue_at) refl
]

-- Every member is of a guest `w`, and no two guests have a writer in common.
module _ (w : ℕ → Option ℕ) (apart : (i j a : ℕ) → w i ≡ some a → w j ≡ some a → i ≡ j)
    (exclude : ℕ) (frame : Bytes) where
  absent :
      (subs : List (ℕ × ℕ)) (i a : ℕ)
      → Every (λ i a. w i ≡ some a) subs
      → w i ≡ some a
      → lookup i subs ≡ none
      → addressed a (unfiltered_outbound exclude frame subs) ≡ []
  unfolding unfiltered_outbound lookup
  absent [] i a h e gone = refl
  absent ((j, b) ∷ subs) i a h e gone = ground (arith, absent subs i a h.1 e, apart i j a e, h.0)

  -- The guest with the writer gets the frame once when it is a member and not excluded.
  once :
      (subs : List (ℕ × ℕ)) (i a : ℕ)
      → IsMap subs
      → Every (λ i a. w i ≡ some a) subs
      → w i ≡ some a
      → addressed a (unfiltered_outbound exclude frame subs)
        ≡ (if is_some (lookup i subs) && not (i == exclude) then frame ∷ [] else [])
  unfolding unfiltered_outbound lookup
  once [] i a m h e = refl
  once ((j, b) ∷ subs) i a m h e =
      ground (arith, once subs i a m.1 h.1 e, absent subs i a h.1 e, apart i j a e, h.0)

module _ (env : Env) where
  -- The frames that the filtered pass makes for a guest's subscriptions.
  abbrev pub frames : List (ℕ × Bytes) → List Bytes
  frames [] = []
  frames ((b, frame) ∷ out) = frame ∷ frames out

  abbrev pub events_for : ℕ → ℕ → Incoming env → List ((ℕ × ℕ) × FilteredSub) → List Bytes
  events_for i exclude p [] = []
  events_for i exclude p (((client_id, sub_id), sub) ∷ subs) =
      (if client_id == i && not (client_id == exclude)
        then frames (dispatch_sub env sub_id sub p).1
        else [])
      ++ events_for i exclude p subs

  addressed-append :
      (a : ℕ) (xs ys : List (ℕ × Bytes)) → addressed a (xs ++ ys) ≡ addressed a xs ++ addressed a ys
  addressed-append a [] ys = refl
  addressed-append a ((b, frame) ∷ xs) ys = elim (Bool-cases (b == a)) [
    | inl at ↦ rw at (ap (λ l. frame ∷ l) (addressed-append a xs ys))
    | inr other ↦ rw other (addressed-append a xs ys)
  ]

  -- What a subscription sends goes to its own writer.
  dispatch_sub-addressed :
      (a sub_id : ℕ) (s : FilteredSub) (p : Incoming env)
      → addressed a (dispatch_sub env sub_id s p).1
        ≡ (if s.writer == a then frames (dispatch_sub env sub_id s p).1 else [])
  unfolding dispatch_sub
  dispatch_sub-addressed a sub_id s p = ground arith

  module _ (w : ℕ → Option ℕ) (apart : (i j a : ℕ) → w i ≡ some a → w j ≡ some a → i ≡ j)
      (exclude : ℕ) (p : Incoming env) where
    same_guest : (j i b a : ℕ) → w j ≡ some b → w i ≡ some a → (b == a) ≡ (j == i)
    same_guest j i b a e f = ground (arith, apart j i a)

    filtered_pass-addressed :
        (subs : List ((ℕ × ℕ) × FilteredSub)) (i a : ℕ)
        → Every (λ (k : ℕ × ℕ) s. w (k.0) ≡ some (FilteredSub.writer s)) subs
        → w i ≡ some a
        → addressed a (filtered_pass env exclude p subs).1 ≡ events_for i exclude p subs
    unfolding filtered_pass
    filtered_pass-addressed [] i a h e = refl
    filtered_pass-addressed (((j, n), s) ∷ subs) i a h e =
        let ih = filtered_pass-addressed subs i a h.1 e in
        let own = dispatch_sub-addressed a n s p in
        let parts =
          addressed-append a (dispatch_sub env n s p).1 (filtered_pass env exclude p subs).1 in
        let same : (s.writer == a) ≡ (j == i) = same_guest j i s.writer a h.0 e in
        elim (Bool-cases (j == exclude)) [
          | inl skipped ↦ elim (Bool-cases (j == i)) [
            | inl at ↦ rw (skipped, at) ih
            | inr other ↦ rw (skipped, other) ih
          ]
          | inr reached ↦ elim (Bool-cases (j == i)) [
            | inl at ↦
                rw (reached, at)
                  (parts
                    ∙ ap (λ l. l ++ addressed a (filtered_pass env exclude p subs).1)
                        (own
                          ∙ ap (λ b. if b then frames (dispatch_sub env n s p).1 else [])
                              (same ∙ at))
                    ∙ ap (λ l. frames (dispatch_sub env n s p).1 ++ l) ih)
            | inr other ↦
                rw (reached, other)
                  (parts
                    ∙ ap (λ l. l ++ addressed a (filtered_pass env exclude p subs).1)
                        (own
                          ∙ ap (λ b. if b then frames (dispatch_sub env n s p).1 else [])
                              (same ∙ other))
                    ∙ ih)
          ]
        ]

  -- The events of a publish for a guest's filtered subscriptions: none without a payload or a group.
  abbrev pub filtered_events :
      ℕ → ℕ → DotsHeader → Option (Payload env.values) → Option Group → List Bytes
  filtered_events i exclude header (some payload) (some g) =
      events_for i exclude (incoming env header payload) g.filtered_subs
  filtered_events i exclude header payload group = []

  no_events :
      (i exclude : ℕ) (p : Incoming env) (subs : List ((ℕ × ℕ) × FilteredSub))
      → is_empty subs ≡ true
      → [] ≡ events_for i exclude p subs
  no_events i exclude p [] h = refl
  no_events i exclude p (s ∷ subs) h = cc

  passed :
      (name : String) (i a exclude : ℕ) (p : Incoming env) (g : Group)
      (groups : List (String × Group))
      → addressed a (filtered_pass env exclude p g.filtered_subs).1
        ≡ events_for i exclude p g.filtered_subs
      → addressed a (filtered_groups env name exclude p (some g) groups).1
        ≡ events_for i exclude p g.filtered_subs
  passed name i a exclude p g groups h = elim (Bool-cases (is_empty g.filtered_subs)) [
    | inl empty ↦ rw empty (no_events i exclude p g.filtered_subs empty)
    | inr used ↦ rw used h
  ]

  filtered_groups-addressed :
      (name : String) (exclude : ℕ) (header : DotsHeader) (payload : Payload env.values) (i a : ℕ)
      (host : Host env)
      → IsWell env host
      → writer_for env i host ≡ some a
      → addressed a
          (filtered_groups env name exclude
            (incoming env header payload)
            (lookup name host.groups)
            host.groups).1
        ≡ filtered_events i exclude header (some payload) (lookup name host.groups)
  unfolding writer_for
  filtered_groups-addressed name exclude header payload i a host h e =
      elim (Option-cases (lookup name host.groups)) [
        | inl gone ↦ rw gone refl
        | inr (g, there) ↦
            let l =
              lookup-Every (λ name g. IsLive (writer_in host.guests) g) name g host.groups there
                h.registered.live in
            let pass =
              filtered_pass-addressed (writer_in host.guests) h.registered.apart exclude
                (incoming env header payload) g.filtered_subs i a l.subs e in
            rw there (passed name i a exclude (incoming env header payload) g host.groups pass)
      ]

  no_members :
      (a exclude : ℕ) (frame : Bytes) (i : ℕ)
      → addressed a (unfiltered_outbound exclude frame [])
        ≡ (if is_some (lookup {V = ℕ} i []) && not (i == exclude) then frame ∷ [] else [])
  unfolding unfiltered_outbound lookup
  no_members a exclude frame i = refl

  members_reached :
      (name : String) (frame : Bytes) (exclude : ℕ) (host : Host env) (i a : ℕ)
      → IsWell env host
      → writer_for env i host ≡ some a
      → addressed a (unfiltered_outbound exclude frame (members env (lookup name host.groups))) ≡ (
          if is_some (lookup i (members env (lookup name host.groups))) && not (i == exclude)
          then frame ∷ []
          else [])
  unfolding writer_for
  members_reached name frame exclude host i a h e = elim (Option-cases (lookup name host.groups)) [
    | inl gone ↦ rw gone (no_members a exclude frame i)
    | inr (g, there) ↦
        let l =
          lookup-Every (λ name g. IsLive (writer_in host.guests) g) name g host.groups there
            h.registered.live in
        rw there (
          once (writer_in host.guests) h.registered.apart exclude frame g.unfiltered_subs i a
            l.members_map l.members e)
  ]

  -- A publish reaches a guest like this, and in this order: the frame once, when the guest is a member
  -- of the type's group and not excluded, and then what the four cases make of it for each of the
  -- guest's filtered subscriptions.
  pub cache_and_fan_out-reaches :
      (name : String) (header : DotsHeader) (frame : Bytes) (payload : Option (Payload env.values))
      (exclude : ℕ) (host : Host env) (i a : ℕ)
      → IsWell env host
      → writer_for env i host ≡ some a
      → (cache_and_fan_out env name header frame payload exclude host).writers a
        ≡ enqueue_all
            ((if is_some (lookup i (members env (lookup name host.groups))) && not (i == exclude)
                then frame ∷ []
                else [])
              ++ filtered_events i exclude header payload (lookup name host.groups))
            (host.writers a)
  unfolding cache_and_fan_out
  cache_and_fan_out-reaches name header frame none exclude host i a h e =
      deliver-at (unfiltered_outbound exclude frame (members env (lookup name host.groups)))
        host.writers a
      ∙ ap (λ l. enqueue_all l (host.writers a))
          (members_reached name frame exclude host i a h e
            ∙ sym (
                append-nil (
                  if is_some (lookup i (members env (lookup name host.groups)))
                    && not (i == exclude)
                  then frame ∷ []
                  else [])))
  cache_and_fan_out-reaches name header frame (some payload) exclude host i a h e =
      let p = incoming env header payload in
      let group = lookup name host.groups in
      let first = unfiltered_outbound exclude frame (members env group) in
      let second = (filtered_groups env name exclude p group host.groups).1 in
      deliver-at (first ++ second) host.writers a
      ∙ ap (λ l. enqueue_all l (host.writers a))
          (addressed-append a first second
            ∙ ap (λ l. l ++ addressed a second) (members_reached name frame exclude host i a h e)
            ∙ ap
                (λ l.
                  (if is_some (lookup i (members env group)) && not (i == exclude)
                    then frame ∷ []
                    else [])
                  ++ l)
                (filtered_groups-addressed name exclude header payload i a host h e))
