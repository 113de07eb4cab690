-- ===== src/Http/Server/Registration.antt =====
-- What the front end of http-server/src/server.rs promises about the names of methods.
use jsonrpsee.Base.{
  String, List, [], ◌∷◌, ◌++◌, Option, none, some, Bool, false, Result, ◌≡◌, ◌≢◌, refl, sym, inl,
  inr, Option-cases, Bool-cases, ◌==◌, string_eq, In, here, there, In-cons, not-In-nil, beq_refl,
  ◌⊎◌,
}
use jsonrpsee.Base.Dict
use jsonrpsee.Base.Dict.Laws.{get-insert}
use jsonrpsee.Types.Errors.{ClientError}
use jsonrpsee.Http.Server.{FrontToBack}
use jsonrpsee.Http.Server.Frontend.{
  Front, insert_method, send_back, register_notification, register_method,
}

-- A registration by the user.
pub data Registration (Handler : Type 0) : Type 0 where
  notification : String → Bool → Handler → Registration Handler
  method : String → Handler → Registration Handler

-- the names that are sent to the task to be registered
abbrev pub names_sent : {Value Handler : Type 0} → List (FrontToBack Value Handler) → List String
names_sent [] = []
names_sent (FrontToBack.register_notifications name h l ∷ ms) = name ∷ names_sent ms
names_sent (FrontToBack.register_method name h ∷ ms) = name ∷ names_sent ms
names_sent (FrontToBack.answer_request id r ∷ ms) = names_sent ms

-- No name stands twice.
abbrev pub Distinct : List String → Type 0
Distinct [] = Unit
Distinct (n ∷ ns) = (¬ In n ns) × Distinct ns

In-append : (a : String) (xs ys : List String) → In a (xs ++ ys) → In a xs ⊎ In a ys
In-append a [] ys i = inr i
In-append a (x ∷ xs) ys (here e) = inl (here e)
In-append a (x ∷ xs) ys (there i) = elim (In-append a xs ys i) [
  | inl j ↦ inl (there j)
  | inr j ↦ inr j
]

Distinct-append_end :
    (xs : List String) (a : String) → Distinct xs → (¬ In a xs) → Distinct (xs ++ (a ∷ []))
Distinct-append_end [] a d n = (not-In-nil a, tt)
Distinct-append_end (x ∷ xs) a (h, d) n = (
  λ i. elim (In-append x xs (a ∷ []) i) [
    | inl j ↦ h j
    | inr j ↦ elim (In-cons x a [] j) [ inl e ↦ n (here (sym e)) | inr k ↦ not-In-nil x k ]
  ],
  Distinct-append_end xs a d (λ i. n (there i)),
)

inserted-known :
    (d : Dict.Dict String (Unit {0})) (name n : String)
    → (n ≡ name) ⊎ (Dict.get d n ≢ none)
    → Dict.get (Dict.insert d name tt) n ≢ none
inserted-known d name n h e = elim (Bool-cases (name == n)) [
  | inl q ↦ let g = rw (get-insert d name n tt, q) at e in cc
  | inr q ↦ elim h [
    | inl same ↦ let no : (n == n) ≡ false = rw (← same) at q in cc (beq_refl n)
    | inr k ↦ k (rw (get-insert d name n tt, q) at e)
  ]
]

module _ {Value Handler : Type 0} where
  -- `Server::new`
  abbrev pub front_new : Front Value Handler
  front_new = record { registered_methods = []; sent = [] }

  -- No name was sent to the task twice, and each name that was sent is registered.
  pub record SentOnce (f : Front Value Handler) : Type 0 where
    pub distinct : Distinct (names_sent f.sent)
    pub known :
        (name : String) → In name (names_sent f.sent) → Dict.get f.registered_methods name ≢ none

  names_sent-append :
      (ms ns : List (FrontToBack Value Handler))
      → names_sent (ms ++ ns) ≡ names_sent ms ++ names_sent ns
  names_sent-append [] ns = refl
  names_sent-append (FrontToBack.register_notifications name h l ∷ ms) ns =
      cc (names_sent-append ms ns)
  names_sent-append (FrontToBack.register_method name h ∷ ms) ns = cc (names_sent-append ms ns)
  names_sent-append (FrontToBack.answer_request id r ∷ ms) ns = names_sent-append ms ns

  module _ {Foreign : Type 0} where
    -- one registration, with what sending to the task answers
    abbrev pub register :
        Registration Handler
        → Option Foreign
        → Front Value Handler
        → Result Handler (ClientError Value Foreign) × Front Value Handler
    register (notification name l h) ended f = register_notification name l h ended f
    register (method name h) ended f = register_method name h ended f

    -- The registrations one after another.
    unfoldable pub register_all :
        List (Registration Handler × Option Foreign) → Front Value Handler → Front Value Handler
    register_all [] f = f
    register_all ((r, ended) ∷ rs) f = register_all rs (register r ended f).1

    send_back-SentOnce :
        (name : String) (msg : FrontToBack Value Handler) (h : Handler) (ended : Option Foreign)
        (f : Front Value Handler)
        → names_sent (msg ∷ []) ≡ name ∷ []
        → Dict.get f.registered_methods name ≡ none
        → SentOnce f
        → SentOnce (send_back ended msg h (insert_method name f)).1
    unfolding send_back insert_method
    send_back-SentOnce name msg h none f m free o = record {
      distinct =
          rw (names_sent-append f.sent (msg ∷ []), m)
            (Distinct-append_end (names_sent f.sent) name o.distinct (λ i. o.known name i free));
      known = λ n i. inserted-known f.registered_methods name n (
          sent_known n (
            In-append n (names_sent f.sent) (name ∷ [])
              (rw (names_sent-append f.sent (msg ∷ []), m) at i)));
    }
      where
        sent_known :
            (n : String)
            → In n (names_sent f.sent) ⊎ In n (name ∷ [])
            → (n ≡ name) ⊎ (Dict.get f.registered_methods n ≢ none)
        sent_known n (inl i) = inr (o.known n i)
        sent_known n (inr i) = elim (In-cons n name [] i) [
          | inl e ↦ inl e
          | inr j ↦ absurd (not-In-nil n j)
        ]
    send_back-SentOnce name msg h (some e) f m free o = record {
      distinct = o.distinct;
      known = λ n i. inserted-known f.registered_methods name n (inr (o.known n i));
    }

    register-SentOnce :
        (r : Registration Handler) (ended : Option Foreign) (f : Front Value Handler)
        → SentOnce f
        → SentOnce (register r ended f).1
    unfolding register_notification register_method
    register-SentOnce (notification name l h) ended f o =
        elim (Option-cases (Dict.get f.registered_methods name)) [
          | inr (x, e) ↦ rw e o
          | inl e ↦ rw e (
              send_back-SentOnce name (FrontToBack.register_notifications name h l) h ended f refl e
                o)
        ]
    register-SentOnce (method name h) ended f o =
        elim (Option-cases (Dict.get f.registered_methods name)) [
          | inr (x, e) ↦ rw e o
          | inl e ↦
              rw e (send_back-SentOnce name (FrontToBack.register_method name h) h ended f refl e o)
        ]

    register_all-SentOnce_from :
        (rs : List (Registration Handler × Option Foreign)) (f : Front Value Handler)
        → SentOnce f
        → SentOnce (register_all rs f)
    unfolding register_all
    register_all-SentOnce_from [] f o = o
    register_all-SentOnce_from ((r, ended) ∷ rs) f o =
        register_all-SentOnce_from rs (register r ended f).1 (register-SentOnce r ended f o)

    -- Whatever methods and notifications are registered on a new server, one after another, and whether
    -- or not the task still runs, no name is sent to the task twice, and each that is sent is registered.
    pub register_all-SentOnce :
        (rs : List (Registration Handler × Option Foreign)) → SentOnce (register_all rs front_new)
    register_all-SentOnce rs =
        register_all-SentOnce_from rs front_new
          (record { distinct = tt; known = λ n i. absurd (not-In-nil n i) })
