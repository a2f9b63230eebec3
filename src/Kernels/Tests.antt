-- ===== src/Kernels/Tests.antt =====
-- Concrete users and a small library for internal/kernel/kernel.go and internal/kernel/singbox.
use Prim.Native.String.{String}
use yzboard_node.Prelude.{
  ℕ, ◌≡◌, refl, arith, true, false, none, some, List, [], ◌∷◌, if◌then◌else◌,
}
use yzboard_node.Users.{UserSpec}
use yzboard_node.Users.Maps.{has_id, or_else}
use yzboard_node.Users.Credentials.{credential}
use yzboard_node.Runtime.Laws.{IsKernel}
use yzboard_node.Kernels.{user_diff, missing_users}
use yzboard_node.Kernels.Diff.{user_diff-credential}
use yzboard_node.Kernels.Singbox
use yzboard_node.Kernels.Ids.{format_int36, read_digits, format_int36-read_digits}
use yzboard_node.Kernels.Laws.{kernel, singbox-IsKernel}

abbrev pub user : ℕ → String → UserSpec
user id uuid = record { id = id; uuid = uuid; speed_limit = 0; device_limit = 0 }

-- One user stays, one has a new UUID, one goes and one comes.
abbrev old_users : List UserSpec
old_users = user 1 "a" ∷ user 2 "b" ∷ user 3 "c" ∷ []

abbrev new_users : List UserSpec
new_users = user 4 "d" ∷ user 2 "B" ∷ user 1 "a" ∷ []

diff_of_users :
    user_diff old_users new_users ≡ (user 4 "d" ∷ user 2 "B" ∷ [], user 2 "b" ∷ user 3 "c" ∷ [])
unfolding user_diff missing_users
diff_of_users = refl

user_diff-credential_example :
    let (to_add, to_remove) = user_diff old_users new_users in
    or_else (if has_id 2 to_remove then none else credential old_users 2) (credential to_add 2)
    ≡ credential new_users 2
user_diff-credential_example =
    user_diff-credential old_users new_users 2 (refl, (refl, (refl, tt))) (refl, (refl, (refl, tt)))

-- An instance is its users.
abbrev pub library : Singbox.Library
library = record {
  Box = List UserSpec;
  accepts = λ n users. true;
  prepares = λ n users tls. true;
  build = λ n users tls. some users;
  start = λ b. (b, true);
  only_rules = λ n users tls n' users' tls'. some false;
  update_rules = λ b n users tls. (b, false);
  update_inbounds = λ b n old users tls. Singbox.swapped users;
}

singbox-IsKernel_example : IsKernel (kernel library)
singbox-IsKernel_example = singbox-IsKernel library

-- 46655 is zzz.
format_int36-read_digits_example :
    (s : List ℕ) × (format_int36 46655 ≡ some s) × (read_digits 0 s ≡ 46655)
format_int36-read_digits_example = format_int36-read_digits 46655 (omega arith)
