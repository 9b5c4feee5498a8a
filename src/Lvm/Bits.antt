-- ===== src/Lvm/Bits.antt =====
-- The attribute bits of a logical volume (core/lvm/lv.go), and the letters of `lvs` for them.
use albius.Base.{ℕ, ◌^◌, List, [], ◌∷◌}

abbrev pub lv_attr_vol_type_cache : ℕ
lv_attr_vol_type_cache = 2 ^ 0

abbrev pub lv_attr_vol_type_mirrored : ℕ
lv_attr_vol_type_mirrored = 2 ^ 1

abbrev pub lv_attr_vol_type_mirrored_no_initial_sync : ℕ
lv_attr_vol_type_mirrored_no_initial_sync = 2 ^ 2

abbrev pub lv_attr_vol_type_origin : ℕ
lv_attr_vol_type_origin = 2 ^ 3

abbrev pub lv_attr_vol_type_origin_merging_snapshot : ℕ
lv_attr_vol_type_origin_merging_snapshot = 2 ^ 4

abbrev pub lv_attr_vol_type_raid : ℕ
lv_attr_vol_type_raid = 2 ^ 5

abbrev pub lv_attr_vol_type_raid_no_initial_sync : ℕ
lv_attr_vol_type_raid_no_initial_sync = 2 ^ 6

abbrev pub lv_attr_vol_type_snapshot : ℕ
lv_attr_vol_type_snapshot = 2 ^ 7

abbrev pub lv_attr_vol_type_merging_snapshot : ℕ
lv_attr_vol_type_merging_snapshot = 2 ^ 8

abbrev pub lv_attr_vol_type_pvmove : ℕ
lv_attr_vol_type_pvmove = 2 ^ 9

abbrev pub lv_attr_vol_type_virtual : ℕ
lv_attr_vol_type_virtual = 2 ^ 10

abbrev pub lv_attr_vol_type_image : ℕ
lv_attr_vol_type_image = 2 ^ 11

abbrev pub lv_attr_vol_type_image_out_of_sync : ℕ
lv_attr_vol_type_image_out_of_sync = 2 ^ 12

abbrev pub lv_attr_vol_type_mirror_log_device : ℕ
lv_attr_vol_type_mirror_log_device = 2 ^ 13

abbrev pub lv_attr_vol_type_under_conversion : ℕ
lv_attr_vol_type_under_conversion = 2 ^ 14

abbrev pub lv_attr_vol_type_thin_volume : ℕ
lv_attr_vol_type_thin_volume = 2 ^ 15

abbrev pub lv_attr_vol_type_thin_pool : ℕ
lv_attr_vol_type_thin_pool = 2 ^ 16

abbrev pub lv_attr_vol_type_thin_pool_data : ℕ
lv_attr_vol_type_thin_pool_data = 2 ^ 17

abbrev pub lv_attr_vol_type_vdo_pool : ℕ
lv_attr_vol_type_vdo_pool = 2 ^ 18

abbrev pub lv_attr_vol_type_vdo_pool_data : ℕ
lv_attr_vol_type_vdo_pool_data = 2 ^ 19

abbrev pub lv_attr_vol_type_metadata : ℕ
lv_attr_vol_type_metadata = 2 ^ 20

abbrev pub lv_attr_permissions_writeable : ℕ
lv_attr_permissions_writeable = 2 ^ 0

abbrev pub lv_attr_permissions_readonly : ℕ
lv_attr_permissions_readonly = 2 ^ 1

abbrev pub lv_attr_permissions_readonly_non_ro_volume : ℕ
lv_attr_permissions_readonly_non_ro_volume = 2 ^ 2

abbrev pub lv_attr_alloc_policy_anywhere : ℕ
lv_attr_alloc_policy_anywhere = 2 ^ 0

abbrev pub lv_attr_alloc_policy_contiguous : ℕ
lv_attr_alloc_policy_contiguous = 2 ^ 1

abbrev pub lv_attr_alloc_policy_inherited : ℕ
lv_attr_alloc_policy_inherited = 2 ^ 2

abbrev pub lv_attr_alloc_policy_cling : ℕ
lv_attr_alloc_policy_cling = 2 ^ 3

abbrev pub lv_attr_alloc_policy_normal : ℕ
lv_attr_alloc_policy_normal = 2 ^ 4

abbrev pub lv_attr_fixed_minor : ℕ
lv_attr_fixed_minor = 2 ^ 0

abbrev pub lv_attr_state_active : ℕ
lv_attr_state_active = 2 ^ 0

abbrev pub lv_attr_state_historical : ℕ
lv_attr_state_historical = 2 ^ 1

abbrev pub lv_attr_state_suspended : ℕ
lv_attr_state_suspended = 2 ^ 2

abbrev pub lv_attr_state_invalid_snapshot : ℕ
lv_attr_state_invalid_snapshot = 2 ^ 3

abbrev pub lv_attr_state_invalid_suspended_snapshot : ℕ
lv_attr_state_invalid_suspended_snapshot = 2 ^ 4

abbrev pub lv_attr_state_snapshot_merge_failed : ℕ
lv_attr_state_snapshot_merge_failed = 2 ^ 5

abbrev pub lv_attr_state_suspended_snapshot_merge_failed : ℕ
lv_attr_state_suspended_snapshot_merge_failed = 2 ^ 6

abbrev pub lv_attr_state_mapped_device_present_without_tables : ℕ
lv_attr_state_mapped_device_present_without_tables = 2 ^ 7

abbrev pub lv_attr_state_mapped_device_present_with_inactive_table : ℕ
lv_attr_state_mapped_device_present_with_inactive_table = 2 ^ 8

abbrev pub lv_attr_state_thin_pool_check_needed : ℕ
lv_attr_state_thin_pool_check_needed = 2 ^ 9

abbrev pub lv_attr_state_suspended_thin_pool_check_needed : ℕ
lv_attr_state_suspended_thin_pool_check_needed = 2 ^ 10

abbrev pub lv_attr_state_unknown : ℕ
lv_attr_state_unknown = 2 ^ 11

abbrev pub lv_attr_device_open : ℕ
lv_attr_device_open = 2 ^ 0

abbrev pub lv_attr_device_unknown : ℕ
lv_attr_device_unknown = 2 ^ 1

abbrev pub lv_attr_target_type_cache : ℕ
lv_attr_target_type_cache = 2 ^ 0

abbrev pub lv_attr_target_type_mirror : ℕ
lv_attr_target_type_mirror = 2 ^ 1

abbrev pub lv_attr_target_type_raid : ℕ
lv_attr_target_type_raid = 2 ^ 2

abbrev pub lv_attr_target_type_snapshot : ℕ
lv_attr_target_type_snapshot = 2 ^ 3

abbrev pub lv_attr_target_type_thin : ℕ
lv_attr_target_type_thin = 2 ^ 4

abbrev pub lv_attr_target_type_unknown : ℕ
lv_attr_target_type_unknown = 2 ^ 5

abbrev pub lv_attr_target_type_virtual : ℕ
lv_attr_target_type_virtual = 2 ^ 6

abbrev pub lv_attr_blocks_are_overwritten_with_zeroes_before_use : ℕ
lv_attr_blocks_are_overwritten_with_zeroes_before_use = 2 ^ 0

abbrev pub lv_attr_health_partial : ℕ
lv_attr_health_partial = 2 ^ 0

abbrev pub lv_attr_health_unknown : ℕ
lv_attr_health_unknown = 2 ^ 1

abbrev pub lv_attr_health_raid_refresh_needed : ℕ
lv_attr_health_raid_refresh_needed = 2 ^ 2

abbrev pub lv_attr_health_raid_mismatches_exist : ℕ
lv_attr_health_raid_mismatches_exist = 2 ^ 3

abbrev pub lv_attr_health_raid_writemostly : ℕ
lv_attr_health_raid_writemostly = 2 ^ 4

abbrev pub lv_attr_health_thin_failed : ℕ
lv_attr_health_thin_failed = 2 ^ 5

abbrev pub lv_attr_health_thin_pool_out_of_data_space : ℕ
lv_attr_health_thin_pool_out_of_data_space = 2 ^ 6

abbrev pub lv_attr_health_thin_pool_metadata_read_only : ℕ
lv_attr_health_thin_pool_metadata_read_only = 2 ^ 7

abbrev pub lv_attr_health_writecache_error : ℕ
lv_attr_health_writecache_error = 2 ^ 8

abbrev pub lv_attr_skip_activation : ℕ
lv_attr_skip_activation = 2 ^ 0

unfoldable pub attr_vol_type_map : List (ℕ × ℕ)
attr_vol_type_map =
    (b'C', lv_attr_vol_type_cache)
    ∷ (b'm', lv_attr_vol_type_mirrored)
    ∷ (b'M', lv_attr_vol_type_mirrored_no_initial_sync)
    ∷ (b'o', lv_attr_vol_type_origin)
    ∷ (b'O', lv_attr_vol_type_origin_merging_snapshot)
    ∷ (b'r', lv_attr_vol_type_raid)
    ∷ (b'R', lv_attr_vol_type_raid_no_initial_sync)
    ∷ (b's', lv_attr_vol_type_snapshot)
    ∷ (b'S', lv_attr_vol_type_merging_snapshot)
    ∷ (b'p', lv_attr_vol_type_pvmove)
    ∷ (b'v', lv_attr_vol_type_virtual)
    ∷ (b'i', lv_attr_vol_type_image)
    ∷ (b'I', lv_attr_vol_type_image_out_of_sync)
    ∷ (b'l', lv_attr_vol_type_mirror_log_device)
    ∷ (b'c', lv_attr_vol_type_under_conversion)
    ∷ (b'V', lv_attr_vol_type_thin_volume)
    ∷ (b't', lv_attr_vol_type_thin_pool)
    ∷ (b'T', lv_attr_vol_type_thin_pool_data)
    ∷ (b'd', lv_attr_vol_type_vdo_pool)
    ∷ (b'D', lv_attr_vol_type_vdo_pool_data)
    ∷ (b'e', lv_attr_vol_type_metadata)
    ∷ (b'-', 0)
    ∷ []

unfoldable pub attr_permissions_map : List (ℕ × ℕ)
attr_permissions_map =
    (b'w', lv_attr_permissions_writeable)
    ∷ (b'r', lv_attr_permissions_readonly)
    ∷ (b'R', lv_attr_permissions_readonly_non_ro_volume)
    ∷ (b'-', 0)
    ∷ []

unfoldable pub attr_alloc_policy_map : List (ℕ × ℕ)
attr_alloc_policy_map =
    (b'a', lv_attr_alloc_policy_anywhere)
    ∷ (b'c', lv_attr_alloc_policy_contiguous)
    ∷ (b'i', lv_attr_alloc_policy_inherited)
    ∷ (b'l', lv_attr_alloc_policy_cling)
    ∷ (b'n', lv_attr_alloc_policy_normal)
    ∷ (b'-', 0)
    ∷ []

unfoldable pub attr_state_map : List (ℕ × ℕ)
attr_state_map =
    (b'a', lv_attr_state_active)
    ∷ (b'h', lv_attr_state_historical)
    ∷ (b's', lv_attr_state_suspended)
    ∷ (b'I', lv_attr_state_invalid_snapshot)
    ∷ (b'S', lv_attr_state_invalid_suspended_snapshot)
    ∷ (b'm', lv_attr_state_snapshot_merge_failed)
    ∷ (b'M', lv_attr_state_suspended_snapshot_merge_failed)
    ∷ (b'd', lv_attr_state_mapped_device_present_without_tables)
    ∷ (b'i', lv_attr_state_mapped_device_present_with_inactive_table)
    ∷ (b'c', lv_attr_state_thin_pool_check_needed)
    ∷ (b'C', lv_attr_state_suspended_thin_pool_check_needed)
    ∷ (b'X', lv_attr_state_unknown)
    ∷ (b'-', 0)
    ∷ []

unfoldable pub attr_device_map : List (ℕ × ℕ)
attr_device_map = (b'o', lv_attr_device_open) ∷ (b'X', lv_attr_device_unknown) ∷ (b'-', 0) ∷ []

unfoldable pub attr_target_type_map : List (ℕ × ℕ)
attr_target_type_map =
    (b'C', lv_attr_target_type_cache)
    ∷ (b'm', lv_attr_target_type_mirror)
    ∷ (b'r', lv_attr_target_type_raid)
    ∷ (b's', lv_attr_target_type_snapshot)
    ∷ (b't', lv_attr_target_type_thin)
    ∷ (b'u', lv_attr_target_type_unknown)
    ∷ (b'v', lv_attr_target_type_virtual)
    ∷ (b'-', 0)
    ∷ []

unfoldable pub attr_health_map : List (ℕ × ℕ)
attr_health_map =
    (b'p', lv_attr_health_partial)
    ∷ (b'X', lv_attr_health_unknown)
    ∷ (b'r', lv_attr_health_raid_refresh_needed)
    ∷ (b'm', lv_attr_health_raid_mismatches_exist)
    ∷ (b'w', lv_attr_health_raid_writemostly)
    ∷ (b'F', lv_attr_health_thin_failed)
    ∷ (b'D', lv_attr_health_thin_pool_out_of_data_space)
    ∷ (b'M', lv_attr_health_thin_pool_metadata_read_only)
    ∷ (b'E', lv_attr_health_writecache_error)
    ∷ (b'-', 0)
    ∷ []
