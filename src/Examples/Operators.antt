-- ===== src/Examples/Operators.antt =====
-- The theorems on the operator's handlers, levels and identities, applied in the small world.
use abc_auth_svc.Base.{[], ◌∷◌, arith, All, codes, ◌==◌, false}
use abc_auth_svc.Http.{Reply, done, fail, Body, decoded, empty, Request, has_store}
use abc_auth_svc.Manage.Rotate.{handle_manage_rotate}
use abc_auth_svc.Manage.Rotate.Order.{KeepsOld, handle_manage_rotate-KeepsOld}
use abc_auth_svc.Manage.Lifecycle.{handle_manage_suspend, handle_manage_reactivate}
use abc_auth_svc.Manage.Lifecycle.Reactivate.{Withholds, handle_manage_reactivate-Withholds}
use abc_auth_svc.Manage.Guard.{Refuses, operator_handlers-Refuse}
use abc_auth_svc.Manage.CredSource.{handle_cred_source}
use abc_auth_svc.Manage.Listing.{handle_manage_list_slots, handle_manage_get_slot}
use abc_auth_svc.Keys.{handle_keys_mint}
use abc_auth_svc.LogLevel.{get_log_level, post_log_level}
use abc_auth_svc.Diag.{handle_slot_diag}
use abc_auth_svc.Scenario.Network.{probes}
use abc_auth_svc.Login.{Me}
use abc_auth_svc.Scenario.{plain, short_digests, tagged, env, broken, srv, world, request, stranger}

handle_manage_rotate-KeepsOld_example :
    All KeepsOld (handle_manage_rotate broken srv request world).1.history
unfolding handle_manage_rotate abc_auth_svc.Http.◌>>=◌ abc_auth_svc.Manage.operator_slot
    abc_auth_svc.Http.require_operator codes ◌==◌
handle_manage_rotate-KeepsOld_example = handle_manage_rotate-KeepsOld broken srv request world tt tt

handle_manage_reactivate-Withholds_example :
    All Withholds (handle_manage_reactivate broken srv request world).1.history
unfolding handle_manage_reactivate abc_auth_svc.Http.◌>>=◌ abc_auth_svc.Manage.operator_slot
    abc_auth_svc.Http.require_operator codes ◌==◌
handle_manage_reactivate-Withholds_example =
    handle_manage_reactivate-Withholds broken srv request world tt tt

operator_handlers-Refuse_example :
    Refuses (handle_manage_rotate env srv stranger)
    × Refuses (handle_manage_suspend env srv stranger)
    × Refuses (handle_manage_reactivate env srv stranger)
    × Refuses (handle_cred_source env srv short_digests plain stranger empty)
    × Refuses (handle_manage_list_slots env srv stranger)
    × Refuses (handle_manage_get_slot env srv stranger)
    × Refuses (handle_keys_mint env srv short_digests tagged stranger empty)
    × Refuses (get_log_level srv stranger)
    × Refuses (post_log_level srv stranger empty)
    × Refuses (handle_slot_diag env srv probes stranger)
operator_handlers-Refuse_example =
    operator_handlers-Refuse srv stranger env short_digests plain tagged empty probes
      λ p. ground arith

abbrev me : Me
me = record {
  user = codes "pool-ann";
  groups = codes "lab" ∷ [];
  primary_group = codes "su-lab";
  role_based = false;
}
