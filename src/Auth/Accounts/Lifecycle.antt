-- ===== src/Auth/Accounts/Lifecycle.antt =====
-- From the opening of the admin account to its sessions and its next password.
use Prim.Native.String.{slice}
use text.Mathlib.TextLemmas.{append_assoc}
use openbotflow.Prelude.{
  ℕ, ◌≡◌, refl, ap, ◌∙◌, String, true, false, Option, none, some, ◌==◌, string_key, if◌then◌else◌,
  Bool-cases, inl, inr, arith,
}
use openbotflow.Json.{str, obj, Fields, get_field}
use openbotflow.Text.{cut, cut-append}
use openbotflow.Auth.Store.{
  Config, get_config, set_config, delete_where, get_config-set_config, get_config-delete_key,
  get_config-delete_where,
}
use openbotflow.Auth.Keys.{goes_on, extract_token}
use openbotflow.Auth.Password.{IsHashing, hash_password, verify_password-hash_password}
use openbotflow.Auth.Sessions.{Web, session_config_key, resolve_session}
use openbotflow.Auth.Sessions.Lifetime.{IsReadBack}
use openbotflow.Auth.SetupToken.{Setup, setup_token_key}
use openbotflow.Auth.Accounts.{
  gone, account_of, is_setup_token, opened, account_fields, auth_setup, auth_login, auth_logout,
  auth_change_password, is_login, dict_of,
}

-- LIKE takes the keys of sessions, and of the others not the account's; `str` keeps a text.
pub record IsSessionStore (web : Web) : Type 0 where
  pub likes_sessions :
      (token : String) → web.like "admin_sess:%" (session_config_key web token) ≡ true
  pub spares_account : web.like "admin_sess:%" "admin_account" ≡ false
  pub str_of_text : (s : String) → web.str_of (str s) ≡ s

module _ (web : Web) where
  cut_session : (token : String) → (cut b':' (session_config_key web token)).0 ≡ "admin_sess"
  unfolding session_config_key
  cut_session token =
      ap (λ (t : String). (cut b':' t).0)
        (append_assoc "admin_sess" ":" (slice (web.sha256_hex token) 0 32))
      ∙ ap (λ (r : String × Option String). r.0)
          (cut-append b':' "admin_sess" ":" (slice (web.sha256_hex token) 0 32) refl (ground arith))

  -- A key in front of whose first colon something else stands is no session's.
  other_key :
      (key token : String)
      → ((cut b':' key).0 == "admin_sess") ≡ false
      → (key == session_config_key web token) ≡ false
  other_key key token h = elim (Bool-cases (key == session_config_key web token)) [
    | inr different ↦ different
    | inl e ↦
        let same = (string_key.same_iff key (session_config_key web token)).0 e in
        let head = ap (λ (t : String). (cut b':' t).0) same ∙ cut_session token in
        let hit = (string_key.same_iff (cut b':' key).0 "admin_sess").1 head in cc
  ]

  setup_key : ((cut b':' setup_token_key).0 == "admin_sess") ≡ false
  unfolding cut
  setup_key = refl

  account_key : ((cut b':' "admin_account").0 == "admin_sess") ≡ false
  unfolding cut
  account_key = refl

  get_config-opened :
      (k username pwd_hash : String) (now : ℕ) (c : Config)
      → get_config k (opened web username pwd_hash now c) ≡ (
          if setup_token_key == k
          then none
          else if web.like "admin_sess:%" k
          then none
          else if "admin_account" == k
          then some (web.dumps (obj (account_fields web username pwd_hash)))
          else get_config k c)
  get_config-opened k username pwd_hash now c =
      let account = web.dumps (obj (account_fields web username pwd_hash)) in
      rw
        (
          get_config-delete_key setup_token_key k (
              delete_where (λ key row. web.like "admin_sess:%" key)
                (set_config "admin_account" account now c)),
          get_config-delete_where (λ key. web.like "admin_sess:%" key) k
              (set_config "admin_account" account now c),
          get_config-set_config "admin_account" k account now c,
        )
        refl

  -- A logout with a token in its header, whatever token its body holds, is answered alike whether or
  -- not that session was valid. It closes the session of the header's token, and no session whose
  -- token has another hash.
  pub auth_logout-closes :
      (authorization body_token : Option String) (token other : String) (later : ℕ) (c : Config)
      → extract_token authorization ≡ some token
      → (token == "") ≡ false
      → ((auth_logout web authorization body_token c).0 ≡ goes_on tt)
        × (resolve_session web other later (auth_logout web authorization body_token c).1 ≡ (
            if session_config_key web token == session_config_key web other
            then none
            else resolve_session web other later c))
  unfolding auth_logout resolve_session
  auth_logout-closes authorization body_token token other later c e full =
      rw (e, full)
        (
          refl,
          elim (Bool-cases (session_config_key web token == session_config_key web other)) [
            | inl same ↦
                rw
                  (
                    get_config-delete_key (session_config_key web token)
                        (session_config_key web other) c,
                    same,
                  )
                  refl
            | inr different ↦
                rw
                  (
                    get_config-delete_key (session_config_key web token)
                        (session_config_key web other) c,
                    different,
                  )
                  refl
          ],
        )

  module _ (hashing : IsHashing web.hashing) (store : IsSessionStore web) where
    account_of-dumps :
        (c : Config) (fields : Fields)
        → IsReadBack web (obj fields)
        → get_config "admin_account" c ≡ some (web.dumps (obj fields))
        → account_of web c ≡ some fields
    unfolding account_of
    account_of-dumps c fields laws e = rw (e, laws.full_dumps) (ap (dict_of web) laws.read_dumps)

    is_login_account :
        (username password salt stored : String)
        → hashing.is_bytes salt ≡ true
        → hash_password web.hashing salt password ≡ some stored
        → is_login web username password (some (account_fields web username stored)) ≡ true
    unfolding get_field
    is_login_account username password salt stored bs e =
        rw
          (
            store.str_of_text stored,
            store.str_of_text username,
            (verify_password-hash_password web.hashing hashing password password salt stored bs
                e).1,
            (string_key.same_iff username username).1 refl,
          )
          refl

    module _ (username pwd_hash : String) (now : ℕ) (c : Config) where
      opened-spent :
          (token : String) → is_setup_token web token (opened web username pwd_hash now c) ≡ false
      unfolding is_setup_token
      opened-spent token =
          rw (get_config-opened setup_token_key username pwd_hash now c) (ground arith)

      opened-closed :
          (session : String) (later : ℕ)
          → resolve_session web session later (opened web username pwd_hash now c) ≡ none
      unfolding resolve_session
      opened-closed session later =
          rw
            (
              get_config-opened (session_config_key web session) username pwd_hash now c,
              other_key setup_token_key session setup_key,
              store.likes_sessions session,
            )
            refl

      opened-account :
          IsReadBack web (obj (account_fields web username pwd_hash))
          → account_of web (opened web username pwd_hash now c)
            ≡ some (account_fields web username pwd_hash)
      opened-account laws =
          account_of-dumps (opened web username pwd_hash now c)
            (account_fields web username pwd_hash) laws
            (rw (get_config-opened "admin_account" username pwd_hash now c, store.spares_account)
              refl)

    login_admits :
        (username password session : String) (later : ℕ) (c : Config)
        → is_login web username password (account_of web c) ≡ true
        → (auth_login web username password session later c).0 ≡ goes_on session
    unfolding auth_login
    login_admits username password session later c h = rw h refl

    -- Where hexadecimal notation and the account's JSON are read back, LIKE takes the keys of
    -- sessions and spares the account's, the password can be hashed with a salt of bytes and the
    -- token file can be removed: a setup that passes the check of its token burns it. Afterwards no
    -- token passes that check, and the token file is gone. Every session is closed. The account can
    -- be logged into with the name and the password of the setup.
    pub auth_setup-burns :
        (token username password salt stored other session : String) (now later : ℕ) (s : Setup)
        → IsReadBack web (obj (account_fields web username stored))
        → hashing.is_bytes salt ≡ true
        → is_setup_token web token s.config ≡ true
        → hash_password web.hashing salt password ≡ some stored
        → let s' = (auth_setup web token username password salt gone now s).1 in
          ((auth_setup web token username password salt gone now s).0 ≡ goes_on tt)
          × (s'.file ≡ none)
          × (is_setup_token web other s'.config ≡ false)
          × (resolve_session web session later s'.config ≡ none)
          × ((auth_login web username password session later s'.config).0 ≡ goes_on session)
    unfolding auth_setup
    auth_setup-burns token username password salt stored other session now later s laws bs h e =
        rw (h, e)
          (
            refl,
            refl,
            opened-spent username stored now s.config other,
            opened-closed username stored now s.config session later,
            login_admits username password session later (opened web username stored now s.config) (
                ap (is_login web username password)
                  (opened-account username stored now s.config laws)
                ∙ is_login_account username password salt stored bs e),
          )

    -- Where hexadecimal notation and the account's JSON are read back and salts are bytes: a change
    -- of the password, by whoever knows the current one, to another one that can be hashed, is
    -- answered with success. The new password logs in afterwards, and what each session resolves to
    -- stays the same.
    pub auth_change_password-keeps :
        (username current new salt before stored salt' session : String) (now later : ℕ)
        (c : Config)
        → IsReadBack web (obj (account_fields web username before))
        → IsReadBack web (obj (account_fields web username stored))
        → hashing.is_bytes salt ≡ true
        → hashing.is_bytes salt' ≡ true
        → get_config "admin_account" c ≡ some (web.dumps (obj (account_fields web username before)))
        → hash_password web.hashing salt current ≡ some before
        → hash_password web.hashing salt' new ≡ some stored
        → (current == new) ≡ false
        → let c' = (auth_change_password web current new salt' now c).1 in
          ((auth_change_password web current new salt' now c).0 ≡ goes_on tt)
          × (resolve_session web session later c' ≡ resolve_session web session later c)
          × ((auth_login web username new session later c').0 ≡ goes_on session)
    unfolding auth_change_password get_field resolve_session
    auth_change_password-keeps username current new salt before stored salt' session now later c l
          l' bs bs' a k n d =
        let dumped = web.dumps (obj (account_fields web username stored)) in
        let known =
          (verify_password-hash_password web.hashing hashing current current salt before bs k).1 in
        rw
          (
            account_of-dumps c (account_fields web username before) l a,
            store.str_of_text before,
            known,
            d,
            n,
            store.str_of_text username,
          )
          (
            refl,
            rw
                (
                  get_config-set_config "admin_account" (session_config_key web session) dumped now
                      c,
                  other_key "admin_account" session account_key,
                )
                refl,
            login_admits username new session later (set_config "admin_account" dumped now c) (
                ap (is_login web username new) (
                  account_of-dumps (set_config "admin_account" dumped now c)
                    (account_fields web username stored) l'
                    (get_config-set_config "admin_account" "admin_account" dumped now c))
                ∙ is_login_account username new salt' stored bs' n),
          )
