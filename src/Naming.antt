-- ===== src/Naming.antt =====
-- internal/authsvc/naming.go: the namespace of a research group.
use abc_auth_svc.Base.{◌≡◌, true, ◌++◌, arith, if◌then◌else◌, Bytes, codes}
use abc_auth_svc.Text.{has_prefix}
use abc_auth_svc.Text.Affix.{has_prefix-append}

abbrev pub ns_prefix : Bytes
ns_prefix = codes "su-"

unfoldable pub namespace_for_group : Bytes → Bytes
namespace_for_group group = if has_prefix group ns_prefix then group else ns_prefix ++ group

-- Every namespace carries the prefix.
pub namespace_for_group-prefix : (g : Bytes) → has_prefix (namespace_for_group g) ns_prefix ≡ true
unfolding namespace_for_group
namespace_for_group-prefix g = ground (arith, has_prefix-append ns_prefix g)

-- A namespace is its own namespace: the prefix is never doubled.
pub namespace_for_group_idem :
    (g : Bytes) → namespace_for_group (namespace_for_group g) ≡ namespace_for_group g
unfolding namespace_for_group
namespace_for_group_idem g = ground (arith, has_prefix-append ns_prefix g)
