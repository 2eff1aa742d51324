-- ===== src/Auth/Sessions/Lifetime.antt =====
-- From when to when a session of auth.py is valid.
use openbotflow.Prelude.{
  ℕ, ◌+◌, ◌≡◌, refl, ap, ◌∙◌, String, false, none, some, ◌==◌, string_key, ltb, if◌then◌else◌,
  Bool-cases, inl, inr, arith,
}
use openbotflow.Json.{Json, obj, get_field}
use openbotflow.Auth.Store.{Config, given, get_config-set_config}
use openbotflow.Auth.Sessions.{
  Web, session_config_key, session_of, session_ttl, create_session, resolve_session, stored_session,
  read_session,
}

-- The text of a JSON value is not empty and is read back.
pub record IsReadBack (web : Web) (j : Json) : Type 0 where
  pub read_dumps : web.loads (web.dumps j) ≡ some j
  pub full_dumps : (web.dumps j == "") ≡ false

module _ (web : Web) where
  stored_dumps :
      (now : ℕ) (j : Json)
      → IsReadBack web j
      → stored_session web now (given (some (web.dumps j))) ≡ read_session web now (some j)
  stored_dumps now j laws = rw laws.full_dumps (ap (read_session web now) laws.read_dumps)

  -- Where the JSON of a session is read back: a new session is valid until seven days after its
  -- creation, inclusive, and what another token resolves to does not change, as long as its hash is
  -- another one.
  pub resolve_session-create_session :
      (token other username : String) (now later : ℕ) (c : Config)
      → IsReadBack web (obj (session_of web username now))
      → resolve_session web other later (create_session web token username now c) ≡ (
          if session_config_key web token == session_config_key web other
          then if ltb (now + session_ttl) later then none else some (session_of web username now)
          else resolve_session web other later c)
  unfolding resolve_session create_session get_field
  resolve_session-create_session token other username now later c laws =
      let found =
        get_config-set_config (session_config_key web token) (session_config_key web other)
          (web.dumps (obj (session_of web username now))) now c in
      elim (Bool-cases (session_config_key web token == session_config_key web other)) [
        | inl same ↦
            rw (found, same)
              (stored_dumps later (obj (session_of web username now)) laws ∙ ground arith)
        | inr different ↦ rw (found, different) refl
      ]
