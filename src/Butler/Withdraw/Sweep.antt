-- ===== src/Butler/Withdraw/Sweep.antt =====
-- The bulk expiry of bot/db/repos/butler_action.py against its query.
use vibeshkoder.Base.{ℕ, ◌≡◌, refl, ◌&&◌, List, [], ◌∷◌, filter, update_where, arith}
use vibeshkoder.Butler.Model.{
  Action, ActionStatus, Tag, World, is_pending_confirmation, is_unconfirmed,
}
use vibeshkoder.Butler.Repos.Actions.{
  pending_past_ttl, mark_expired_past_ttl, is_past, apply_values, because,
}

swept :
    (cutoff : ℕ) (l : List Action)
    → filter
        (λ a. is_pending_confirmation a.status && is_past cutoff a.expires_at)
        (update_where
          (λ a. is_unconfirmed a.status && is_past cutoff a.expires_at)
          (apply_values ActionStatus.expired (because Tag.ttl_expired))
          l)
      ≡ []
unfolding apply_values
swept cutoff [] = refl
swept cutoff (a ∷ l) = ground (arith, swept cutoff l)

-- After the bulk expiry at a cutoff, the query for pending actions past that cutoff finds none.
pub sweep_leaves_none :
    (cutoff : ℕ) (w : World) → pending_past_ttl cutoff (mark_expired_past_ttl cutoff w).actions ≡ []
unfolding pending_past_ttl mark_expired_past_ttl
sweep_leaves_none cutoff w = swept cutoff w.actions
