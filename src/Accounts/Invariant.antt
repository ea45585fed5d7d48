-- ===== src/Accounts/Invariant.antt =====
-- Families of tokens and owners of organizations under any requests.

use reconcileflow_ai.Prelude.{ℕ, ◌≤◌, sym, subst, All, arith}
use reconcileflow_ai.Prelude.Members.{All-map_of}
use reconcileflow_ai.Prelude.Keyed.{total}
use reconcileflow_ai.Accounts.Records.{Organization, Accounts}
use reconcileflow_ai.Accounts.Tokens.{Crypto, TokenManager}
use reconcileflow_ai.Accounts.Auth.{
  Passwords, login, refresh_tokens, logout, change_password, revoke_all_sessions,
}
use reconcileflow_ai.Accounts.Membership.{
  count_active_owners, add_member, update_member, deactivate_member,
}
use reconcileflow_ai.Accounts.Families.{OneLive, Ended, Written}
use reconcileflow_ai.Accounts.Families.Preservation.{Written-OneLive, Written-Ended}
use reconcileflow_ai.Accounts.Sessions.{Writes}
use reconcileflow_ai.Accounts.Sessions.Login.{
  login-Writes, change_password-Writes, revoke_all_sessions-Writes,
}
use reconcileflow_ai.Accounts.Sessions.Refresh.{refresh_tokens-Writes, logout-Writes}
use reconcileflow_ai.Accounts.Ownership.{Owned, owns, count_active_owners-total}
use reconcileflow_ai.Accounts.Ownership.Handlers.{
  Manages, register-Manages, add_member-Manages, update_member-Manages, deactivate_member-Manages,
}
use reconcileflow_ai.Accounts.Steps.{Step, Later, empty}

-- What one request leaves: a write of the tokens, and the owners where they were.
abbrev Moves : Accounts → Accounts → Type 0
Moves s s' = Written s.tokens s'.tokens × (Owned s → Owned s')

by_session : (s s' : Accounts) → Writes s s' → Moves s s'
by_session s s' (w, em, eo) = (w, λ owned. rw (em, eo) owned)

by_manager : (s s' : Accounts) → Manages s s' → Moves s s'
by_manager s s' (e, keeps) = (subst (Written s.tokens) (sym e) Written.kept, keeps)

module _ (crypto : Crypto) (manager : TokenManager) (passwords : Passwords) where
  Step-Moves : (s s' : Accounts) → Step crypto manager passwords s s' → Moves s s'
  Step-Moves s s' (Step.registering lower suffix request ids quota fuel _ a h) =
      by_manager s s' (register-Manages lower suffix s s' request ids quota fuel a h)
  Step-Moves s _ (Step.logging_in settings email password at drawn fresh) =
      by_session s (login crypto manager passwords s settings email password at drawn).0
        (login-Writes crypto manager passwords s settings email password at drawn fresh)
  Step-Moves s _ (Step.refreshing presented at drawn) =
      by_session s (refresh_tokens crypto manager passwords s presented at drawn).0
        (refresh_tokens-Writes crypto manager passwords s presented at drawn)
  Step-Moves s _ (Step.logging_out presented at) =
      by_session s (logout crypto manager passwords s presented at).0
        (logout-Writes crypto manager passwords s presented at)
  Step-Moves s _ (Step.changing_password user_id old new at) =
      by_session s (change_password crypto manager passwords s user_id old new at).0
        (change_password-Writes crypto manager passwords s user_id old new at)
  Step-Moves s _ (Step.revoking_all user_id at) =
      by_session s (revoke_all_sessions s user_id at) (revoke_all_sessions-Writes s user_id at)
  Step-Moves s _ (Step.adding tenant organization_id email role id) =
      by_manager s (add_member s tenant organization_id email role id).0
        (add_member-Manages s tenant organization_id email role id)
  Step-Moves s _ (Step.updating tenant organization_id id role) =
      by_manager s (update_member s tenant organization_id id role).0
        (update_member-Manages s tenant organization_id id role)
  Step-Moves s _ (Step.deactivating tenant organization_id id) =
      by_manager s (deactivate_member s tenant organization_id id).0
        (deactivate_member-Manages s tenant organization_id id)

  Later-OneLive :
      (s s' : Accounts) → Later crypto manager passwords s s' → OneLive s.tokens → OneLive s'.tokens
  Later-OneLive s _ Later.now h = h
  Later-OneLive s _ (Later.after s₁ s₂ l step) h =
      Written-OneLive s₁.tokens s₂.tokens (Step-Moves s₁ s₂ step).0 (Later-OneLive s s₁ l h)

  Later-Owned : (s s' : Accounts) → Later crypto manager passwords s s' → Owned s → Owned s'
  Later-Owned s _ Later.now h = h
  Later-Owned s _ (Later.after s₁ s₂ l step) h = (Step-Moves s₁ s₂ step).1 (Later-Owned s s₁ l h)

  empty-OneLive : OneLive empty.tokens
  unfolding total
  empty-OneLive = (tt, λ family. omega arith)

  -- After any requests to an empty database, no two refresh tokens have the same identifier, and of
  -- the tokens of a family one is live at most.
  pub Later_empty-OneLive :
      (s : Accounts) → Later crypto manager passwords empty s → OneLive s.tokens
  Later_empty-OneLive s l = Later-OneLive empty s l empty-OneLive

  -- After any requests to an empty database, every organization has an active owner.
  pub Later_empty-Owned :
      (s : Accounts)
      → Later crypto manager passwords empty s
      → All (λ (o : Organization). 1 ≤ count_active_owners s o.id) s.organizations
  Later_empty-Owned s l =
      All-map_of (λ (o : Organization). 1 ≤ total (owns o.id) s.memberships)
        (λ (o : Organization). 1 ≤ count_active_owners s o.id)
        (λ o h. rw (count_active_owners-total s o.id) h) s.organizations
        (Later-Owned empty s l (tt, tt)).1

  -- A family of refresh tokens that has ended, none of its tokens being live, stays so under any
  -- requests, in tables whose tokens have different identifiers and one live token at most in a
  -- family.
  pub Later-Ended :
      (s s' : Accounts) (family : ℕ)
      → Later crypto manager passwords s s'
      → OneLive s.tokens
      → Ended family s.tokens
      → Ended family s'.tokens
  Later-Ended s _ family Later.now u h = h
  Later-Ended s _ family (Later.after s₁ s₂ l step) u h =
      let before : OneLive s₁.tokens = Later-OneLive s s₁ l u in
      Written-Ended s₁.tokens s₂.tokens family (Step-Moves s₁ s₂ step).0 before.0
        (Later-Ended s s₁ family l u h)
