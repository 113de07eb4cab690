-- ===== src/WsServer/Server/Registration.antt =====
-- What the front end of ws-server/src/server.rs promises about the names of methods.
use jsonrpsee.Base.{
  ℕ, ◌+◌, ◌%◌, ◌≤◌, String, List, [], ◌∷◌, ◌++◌, Option, none, some, Bool, false, err, ◌==◌,
  string_eq, ◌≡◌, ◌≢◌, ◌⊎◌, refl, arith, inl, inr, Bool-cases, Option-cases, beq_refl, beq_ne,
  beq_sound,
}
use jsonrpsee.Base.Dict
use jsonrpsee.Base.Dict.{Dict}
use jsonrpsee.Base.Dict.Laws.{get-insert, remove-insert}
use jsonrpsee.Types.Errors.{ClientError}
use jsonrpsee.Batches.{u64_mod}
use jsonrpsee.WsServer.Server.{FrontToBack, occurrences}
use jsonrpsee.WsServer.Server.Frontend.{
  Front, insert_method, send_back, register_notification, register_method, register_subscription,
}

module _ {Value Handler Foreign : Type 0} where
  -- When one of the two names is registered, or they are the same, a subscription is refused with the
  -- name of one of them, and the front end is as before. Otherwise both are registered, the message
  -- goes to the task, and the next unique id is another one.
  pub register_subscription_lem :
      (subscribe unsubscribe : String) (ended : Option Foreign) (f : Front Value Handler)
      → ((name : String) × ((name ≡ subscribe) ⊎ (name ≡ unsubscribe))
          × (register_subscription subscribe unsubscribe ended f
              ≡ (err (ClientError.method_already_registered name), f)))
        ⊎ ((Dict.get f.registered_methods subscribe ≡ none)
            × (Dict.get f.registered_methods unsubscribe ≡ none)
            × (subscribe ≢ unsubscribe)
            × (register_subscription subscribe unsubscribe ended f
                ≡ send_back ended
                    (FrontToBack.register_subscription f.next_subscription_unique_id subscribe
                      unsubscribe)
                    f.next_subscription_unique_id
                    (record (insert_method unsubscribe (insert_method subscribe f)) {
                      next_subscription_unique_id = (f.next_subscription_unique_id + 1) % u64_mod;
                    })))
  unfolding register_subscription
  register_subscription_lem subscribe unsubscribe ended f =
      elim (Option-cases (Dict.get f.registered_methods subscribe)) [
        | inr (x, e) ↦ inl (subscribe, inl refl, rw e refl)
        | inl e ↦ elim (Bool-cases (subscribe == unsubscribe)) [
          | inl q ↦ inl (
            unsubscribe,
            inr refl,
            rw
                (
                  e,
                  get-insert f.registered_methods subscribe unsubscribe tt,
                  q,
                  remove-insert f.registered_methods subscribe tt e,
                )
                refl,
          )
          | inr q ↦ elim (Option-cases (Dict.get f.registered_methods unsubscribe)) [
            | inr (x, g) ↦ inl (
              unsubscribe,
              inr refl,
              rw
                  (
                    e,
                    get-insert f.registered_methods subscribe unsubscribe tt,
                    q,
                    g,
                    remove-insert f.registered_methods subscribe tt e,
                  )
                  refl,
            )
            | inl g ↦ inr (
              e,
              g,
              (λ same.
                  let no : (unsubscribe == unsubscribe) ≡ false = rw same at q in
                  cc (beq_refl unsubscribe)),
              rw (e, get-insert f.registered_methods subscribe unsubscribe tt, q, g) refl,
            )
          ]
        ]
      ]

-- the names that a message registers
abbrev pub names_of : {Value Handler : Type 0} → FrontToBack Value Handler → List String
names_of (FrontToBack.register_notifications name h l) = name ∷ []
names_of (FrontToBack.register_method name h) = name ∷ []
names_of (FrontToBack.register_subscription id s u) = s ∷ u ∷ []
names_of (FrontToBack.answer_request id r) = []
names_of (FrontToBack.send_out_notif id v) = []

abbrev pub names_sent : {Value Handler : Type 0} → List (FrontToBack Value Handler) → List String
names_sent [] = []
names_sent (m ∷ ms) = names_of m ++ names_sent ms

abbrev pub registered : Option (Unit {0}) → ℕ
registered none = 0
registered (some x) = 1

pub occurrences-append :
    (name : String) (xs ys : List String)
    → occurrences name (xs ++ ys) ≡ occurrences name xs + occurrences name ys
unfolding occurrences
occurrences-append name [] ys = omega arith
occurrences-append name (x ∷ xs) ys = ground (arith, occurrences-append name xs ys)

-- A name that is not registered may be sent once it is.
room :
    (name : String) (used : List String) (d : Dict String (Unit {0}))
    → Dict.get d name ≡ none
    → ((n : String) → occurrences n used ≤ registered (Dict.get d n))
    → (n : String)
    → occurrences n used + occurrences n (name ∷ [])
      ≤ registered (Dict.get (Dict.insert d name tt) n)
unfolding occurrences
room name used d free h n = elim (Bool-cases (name == n)) [
  | inl q ↦
      let none_yet : occurrences n used ≤ registered (Dict.get d name) =
        rw (beq_sound name n q) (h n) in
      let at_none : occurrences n used ≤ 0 = rw free at none_yet in
      rw (get-insert d name n tt, q) (omega arith)
  | inr q ↦ rw (get-insert d name n tt, q) (let k = h n in omega arith)
]

room_for_two :
    (s u : String) (used : List String) (d : Dict String (Unit {0}))
    → Dict.get d s ≡ none
    → Dict.get d u ≡ none
    → s ≢ u
    → ((n : String) → occurrences n used ≤ registered (Dict.get d n))
    → (n : String)
    → occurrences n used + occurrences n (s ∷ u ∷ [])
      ≤ registered (Dict.get (Dict.insert (Dict.insert d s tt) u tt) n)
room_for_two s u used d free_s free_u ne h n =
    let both = occurrences-append n (s ∷ []) (u ∷ []) in
    let before = occurrences-append n used (s ∷ []) in
    let more =
      room u (used ++ (s ∷ [])) (Dict.insert d s tt)
        (rw (get-insert d s u tt, beq_ne s u ne) free_u)
        (λ k. rw (occurrences-append k used (s ∷ [])) (room s used d free_s h k)) n in
    omega arith

module _ {Value Handler : Type 0} where
  -- No name was sent to the task twice, and each name that was sent is registered.
  abbrev pub SentOnce : Front Value Handler → Type 0
  SentOnce f =
      (name : String)
      → occurrences name (names_sent f.sent) ≤ registered (Dict.get f.registered_methods name)

  names_sent-append :
      (ms : List (FrontToBack Value Handler)) (m : FrontToBack Value Handler) (name : String)
      → occurrences name (names_sent (ms ++ (m ∷ [])))
        ≡ occurrences name (names_sent ms) + occurrences name (names_of m)
  unfolding occurrences
  names_sent-append [] m name = rw (occurrences-append name (names_of m) []) (omega arith)
  names_sent-append (x ∷ ms) m name =
      rw
        (
          occurrences-append name (names_of x) (names_sent (ms ++ (m ∷ []))),
          occurrences-append name (names_of x) (names_sent ms),
          names_sent-append ms m name,
        )
        (omega arith)

module _ {Value Handler Foreign : Type 0} where
  send_back-SentOnce :
      {A : Type 0} (ended : Option Foreign) (msg : FrontToBack Value Handler) (a : A)
      (f : Front Value Handler)
      → ((n : String)
          → occurrences n (names_sent f.sent) + occurrences n (names_of msg)
            ≤ registered (Dict.get f.registered_methods n))
      → SentOnce (send_back ended msg a f).1
  unfolding send_back
  send_back-SentOnce none msg a f h n = rw (names_sent-append f.sent msg n) (h n)
  send_back-SentOnce (some e) msg a f h n = let k = h n in omega arith

  -- A registration of a notification keeps it true that no name is sent twice, and only registered
  -- names are.
  pub register_notification-SentOnce :
      (name : String) (l : Bool) (h : Handler) (ended : Option Foreign) (f : Front Value Handler)
      → SentOnce f
      → SentOnce (register_notification name l h ended f).1
  unfolding register_notification
  register_notification-SentOnce name l h ended f once =
      elim (Option-cases (Dict.get f.registered_methods name)) [
        | inr (x, e) ↦ rw e once
        | inl e ↦ rw e (
            send_back-SentOnce ended (FrontToBack.register_notifications name h l) h
              (insert_method name f) (room name (names_sent f.sent) f.registered_methods e once))
      ]

  -- So does a registration of a method.
  pub register_method-SentOnce :
      (name : String) (h : Handler) (ended : Option Foreign) (f : Front Value Handler)
      → SentOnce f
      → SentOnce (register_method name h ended f).1
  unfolding register_method
  register_method-SentOnce name h ended f once =
      elim (Option-cases (Dict.get f.registered_methods name)) [
        | inr (x, e) ↦ rw e once
        | inl e ↦ rw e (
            send_back-SentOnce ended (FrontToBack.register_method name h) h (insert_method name f)
              (room name (names_sent f.sent) f.registered_methods e once))
      ]

  -- And a registration of a subscription, which sends two names.
  pub register_subscription-SentOnce :
      (s u : String) (ended : Option Foreign) (f : Front Value Handler)
      → SentOnce f
      → SentOnce (register_subscription s u ended f).1
  register_subscription-SentOnce s u ended f once = elim (register_subscription_lem s u ended f) [
    | inl (name, which, e) ↦ rw e once
    | inr (free_s, free_u, ne, e) ↦ rw e (
        send_back-SentOnce ended
          (FrontToBack.register_subscription f.next_subscription_unique_id s u)
          f.next_subscription_unique_id
          (record (insert_method u (insert_method s f)) {
            next_subscription_unique_id = (f.next_subscription_unique_id + 1) % u64_mod;
          })
          (room_for_two s u (names_sent f.sent) f.registered_methods free_s free_u ne once))
  ]
