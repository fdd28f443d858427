-- ===== src/Ipc/Manager/Entries.antt =====
-- IPC.cpp: the entries of `m_active_session_map` and the sessions that they lead to.
use iacore.Base.{
  ℕ, ◌≡◌, refl, sym, ap, ◌∙◌, Bool, true, false, ◌⊎◌, inl, inr, Option, none, some, List, [], ◌∷◌,
  ◌++◌, ◌==◌, if◌then◌else◌, Bool-cases, ==→eq, arith,
}
use iacore.Ipc.Manager.{
  NodeSession, map_insert, map_find, map_erase, session_at, without_key, unknown_node, done,
  pointed,
}

-- Whether a list of sessions has one with this key.
unfoldable pub has_key : ℕ → List NodeSession → Bool
has_key key [] = false
has_key key (s ∷ sessions) = if s.key == key then true else has_key key sessions

-- Every entry of the map leads to a session of the list whose process has the entry's identifier.
unfoldable pub IsBacked : (ℕ → ℕ) → List NodeSession → List (ℕ × ℕ) → Type 0
IsBacked id sessions [] = Unit {0}
IsBacked id sessions (e ∷ m) =
    (id e.1 ≡ e.0) × (has_key e.1 sessions ≡ true) × IsBacked id sessions m

pub has_key-append :
    (key : ℕ) (xs ys : List NodeSession) → has_key key xs ≡ true → has_key key (xs ++ ys) ≡ true
unfolding has_key
has_key-append key (x ∷ xs) ys h = elim (Bool-cases (x.key == key)) [
  | inl same ↦ rw same refl
  | inr other ↦ rw other (has_key-append key xs ys (ground arith))
]
has_key-append key [] ys h = cc

pub has_key-last : (xs : List NodeSession) (s : NodeSession) → has_key s.key (xs ++ s ∷ []) ≡ true
unfolding has_key
has_key-last [] s = ground arith
has_key-last (x ∷ xs) s = ground (arith, has_key-last xs s)

-- A session that is not the one with the key stays when that one is taken out.
pub has_key-middle :
    (key : ℕ) (before after : List NodeSession) (s : NodeSession)
    → (key == s.key) ≡ false
    → has_key key (before ++ s ∷ after) ≡ true
    → has_key key (before ++ after) ≡ true
unfolding has_key
has_key-middle key [] after s other h = ground arith
has_key-middle key (b ∷ before) after s other h = elim (Bool-cases (b.key == key)) [
  | inl same ↦ rw same refl
  | inr differs ↦ rw differs (has_key-middle key before after s other (ground arith))
]

pub has_key-without_key :
    (key gone : ℕ) (sessions : List NodeSession)
    → (key == gone) ≡ false
    → has_key key sessions ≡ true
    → has_key key (without_key gone sessions) ≡ true
unfolding has_key without_key
has_key-without_key key gone [] other h = cc
has_key-without_key key gone (s ∷ sessions) other h = elim (Bool-cases (s.key == gone)) [
  | inl same ↦ rw same (has_key-without_key key gone sessions other (ground arith))
  | inr differs ↦ rw differs (elim (Bool-cases (s.key == key)) [
    | inl same ↦ rw same refl
    | inr away ↦ rw away (has_key-without_key key gone sessions other (ground arith))
  ])
]

some_same : (a b : ℕ) → some a ≡ some b → a ≡ b
some_same a b e = cc

session_at_lem :
    (key : ℕ) (sessions : List NodeSession)
    → has_key key sessions ≡ true
    → (s : NodeSession) × (session_at key sessions ≡ some s) × (s.key ≡ key)
unfolding has_key session_at
session_at_lem key [] h = cc
session_at_lem key (s ∷ sessions) h = elim (Bool-cases (s.key == key)) [
  | inl same ↦ (s, rw same refl, ==→eq s.key key same)
  | inr other ↦
      let (found, at, is) = session_at_lem key sessions (ground arith) in (found, rw other at, is)
]

pub gone_at :
    (key : ℕ) (sessions : List NodeSession)
    → has_key key sessions ≡ false
    → session_at key sessions ≡ none
unfolding has_key session_at
gone_at key [] h = refl
gone_at key (s ∷ sessions) h = elim (Bool-cases (s.key == key)) [
  | inl same ↦ ground arith
  | inr other ↦ rw other (gone_at key sessions (ground arith))
]

pub map_find-map_erase :
    (node other : ℕ) (m : List (ℕ × ℕ))
    → (node == other) ≡ false
    → map_find node (map_erase other m) ≡ map_find node m
unfolding map_find map_erase
map_find-map_erase node other [] h = refl
map_find-map_erase node other (e ∷ m) h = elim (Bool-cases (e.0 == other)) [
  | inl same ↦ rw same (map_find-map_erase node other m h ∙ ground arith)
  | inr differs ↦ rw differs (elim (Bool-cases (e.0 == node)) [
    | inl is ↦ rw is refl
    | inr away ↦ rw away (map_find-map_erase node other m h)
  ])
]

module _ (id : ℕ → ℕ) where
  different : (a b e : ℕ) → id a ≡ e → (e == id b) ≡ false → (a == b) ≡ false
  different a b e is differs = elim (Bool-cases (a == b)) [
    | inl same ↦ ground (arith, ap id (==→eq a b same))
    | inr other ↦ other
  ]

  -- More sessions back the same map.
  module _ (old new : List NodeSession) where
    pub grown :
        ((key : ℕ) → has_key key old ≡ true → has_key key new ≡ true)
        → (m : List (ℕ × ℕ)) → IsBacked id old m
        → IsBacked id new m
    unfolding IsBacked
    grown more [] b = tt
    grown more (e ∷ m) (b0, b1, b2) = (b0, more e.1 b1, grown more m b2)

    -- What is left of the sessions backs what is left of the map, when only the session whose
    -- identifier is erased may be missing.
    pub map_erase-IsBacked :
        (gone : ℕ)
        → ((key : ℕ) → (key == gone) ≡ false → has_key key old ≡ true → has_key key new ≡ true)
        → (m : List (ℕ × ℕ)) → IsBacked id old m
        → IsBacked id new (map_erase (id gone) m)
    unfolding IsBacked map_erase
    map_erase-IsBacked gone kept [] b = tt
    map_erase-IsBacked gone kept (e ∷ m) (b0, b1, b2) = elim (Bool-cases (e.0 == id gone)) [
      | inl same ↦ rw same (map_erase-IsBacked gone kept m b2)
      | inr other ↦
          rw other
            (b0, kept e.1 (different e.1 gone e.0 b0 other) b1, map_erase-IsBacked gone kept m b2)
    ]

  module _ (sessions : List NodeSession) where
    pub map_insert-IsBacked :
        (key : ℕ) (m : List (ℕ × ℕ))
        → has_key key sessions ≡ true
        → IsBacked id sessions m
        → IsBacked id sessions (map_insert (id key) key m)
    unfolding IsBacked map_insert
    map_insert-IsBacked key [] there b = (refl, there, tt)
    map_insert-IsBacked key (e ∷ m) there (b0, b1, b2) = elim (Bool-cases (e.0 == id key)) [
      | inl same ↦ rw same (refl, there, b2)
      | inr other ↦ rw other (b0, b1, map_insert-IsBacked key m there b2)
    ]

    -- An entry that is found leads to its session.
    pub map_find-IsBacked :
        (node : ℕ) (m : List (ℕ × ℕ)) (key : ℕ)
        → IsBacked id sessions m
        → map_find node m ≡ some key
        → (id key ≡ node) × (has_key key sessions ≡ true)
    unfolding IsBacked map_find
    map_find-IsBacked node [] key b e = cc
    map_find-IsBacked node (x ∷ m) key (b0, b1, b2) e = elim (Bool-cases (x.0 == node)) [
      | inl same ↦
          let k = some_same x.1 key (rw same at e) in
          (sym (ap id k) ∙ b0 ∙ ==→eq x.0 node same, sym (ap (λ z. has_key z sessions) k) ∙ b1)
      | inr other ↦ map_find-IsBacked node m key b2 (ground arith)
    ]

    pub pointed-IsBacked :
        (node : ℕ) (found : Option ℕ)
        → ((key : ℕ) → found ≡ some key → (id key ≡ node) × (has_key key sessions ≡ true))
        → (pointed found sessions ≡ unknown_node)
          ⊎ ((s : NodeSession) × (pointed found sessions ≡ done s) × (id s.key ≡ node))
    unfolding pointed
    pointed-IsBacked node none h = inl refl
    pointed-IsBacked node (some key) h =
        let (is, there) = h key refl in
        let (s, at, same) = session_at_lem key sessions there in
        inr (s, rw at refl, ap id same ∙ is)
