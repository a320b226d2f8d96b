-- ===== src/Butler/Repos/Users.antt =====
-- `UserRepo.get` as the Butler service reads its result
use vibeshkoder.Base.{ℕ, Bool, false, Option, none, some, ◌||◌, ◌==◌, find}
use vibeshkoder.Butler.Model.{User, World}

abbrev pub user_of : ℕ → World → Option User
user_of user_id w = find (λ u. u.id == user_id) w.users

abbrev pub member_or_admin : Option User → Bool
member_or_admin none = false
member_or_admin (some u) = u.is_member || u.is_admin

abbrev pub admin_user : Option User → Bool
admin_user none = false
admin_user (some u) = u.is_admin
