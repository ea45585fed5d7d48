-- ===== src/Accounts/Steps.antt =====
-- One request to the accounts as a step between tables, and the tables that requests reach from
-- empty ones.
use reconcileflow_ai.Prelude.{ℕ, ◌≡◌, some, [], Text}
use reconcileflow_ai.Accounts.Records.{Role, Accounts}
use reconcileflow_ai.Accounts.Tokens.{Crypto, TokenManager}
use reconcileflow_ai.Accounts.Store.{Answer}
use reconcileflow_ai.Accounts.Auth.{
  Passwords, LoginSettings, Drawn, login, refresh_tokens, logout, change_password,
  revoke_all_sessions,
}
use reconcileflow_ai.Accounts.Registration.{RegistrationRequest, NewIds, register}
use reconcileflow_ai.Accounts.Tenants.{TenantContext}
use reconcileflow_ai.Accounts.Membership.{add_member, update_member, deactivate_member}
use reconcileflow_ai.Accounts.Sessions.{NewFamily}

module _ (crypto : Crypto) (manager : TokenManager) (passwords : Passwords) where
  -- A request, whatever it answers. The identifier of a family that `login` draws is new.
  pub data Step (s : Accounts) : Accounts → Type 0 where
    registering :
        (lower : Text → Text) (suffix : ℕ → Text) (request : RegistrationRequest) (ids : NewIds)
        (configured_quota fuel : ℕ) (s' : Accounts) (a : Answer (Unit {0}))
        → register lower suffix s request ids configured_quota fuel ≡ some (s', a)
        → Step s s'
    logging_in :
        (settings : LoginSettings) (email password : Text) (now : ℕ) (drawn : Drawn)
        → NewFamily drawn.family_id s
        → Step s (login crypto manager passwords s settings email password now drawn).0
    refreshing :
        (presented : Text) (now : ℕ) (drawn : Drawn)
        → Step s (refresh_tokens crypto manager passwords s presented now drawn).0
    logging_out :
        (presented : Text) (now : ℕ) → Step s (logout crypto manager passwords s presented now).0
    changing_password :
        (user_id : ℕ) (old new : Text) (now : ℕ)
        → Step s (change_password crypto manager passwords s user_id old new now).0
    revoking_all : (user_id now : ℕ) → Step s (revoke_all_sessions s user_id now)
    adding :
        (tenant : TenantContext) (organization_id : ℕ) (email : Text) (role : Role) (id : ℕ)
        → Step s (add_member s tenant organization_id email role id).0
    updating :
        (tenant : TenantContext) (organization_id id : ℕ) (role : Role)
        → Step s (update_member s tenant organization_id id role).0
    deactivating :
        (tenant : TenantContext) (organization_id id : ℕ)
        → Step s (deactivate_member s tenant organization_id id).0

  -- Any number of requests.
  pub data Later (s : Accounts) : Accounts → Type 0 where
    now : Later s s
    after : (s₁ s₂ : Accounts) → Later s s₁ → Step s₁ s₂ → Later s s₂

-- The tables of a new database.
abbrev pub empty : Accounts
empty = record { organizations = []; users = []; memberships = []; tokens = []; events = [] }
