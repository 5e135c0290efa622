-- ===== src/Blob/Records.antt =====
-- Steam/steam/BlobSystem/ContentDescriptionRecord: `CAppVersionRecord::Enumerate` and
-- `CAppFilesystemRecord::Enumerate`, which take a record's fields from its block. Each round of a loop
-- moves on by a descriptor at least, so a block's length is fuel enough; the fuel is the caller's.
pub mod Launch
use revive_emu.Base.{
  ℕ, zero, suc, ◌+◌, Bool, true, false, not, List, [], ◌∷◌, ◌++◌, ◌==◌, ltb, if◌then◌else◌,
}
use revive_emu.Base.Bytes.{Memory}
use revive_emu.Base.Read.{read_le, read_bytes}
use revive_emu.Cache.Outcome.{Outcome, done, fault, out_of_fuel, ◌>>=◌}
use revive_emu.Blob.{
  Pointer, at, null, magic, data_length, null_padding, descriptor_type, node_magic_num,
}

-- The loop of an `Enumerate` over the fields up to the block's end. A field is read from its
-- descriptor on, and gives the place behind it.
unfoldable pub fields {ℓ} :
    {V : Type ℓ} → (ℕ → V → Outcome (V × ℕ)) → ℕ → ℕ → ℕ → V → Outcome (V × ℕ)
fields field zero end i v = out_of_fuel
fields field (suc fuel) end i v =
    if ltb i end then (field i v >>= λ (v', j). fields field fuel end j v') else done (v, i)

-- `Enumerate`, where NULL is the answer for a wrong magic number.
unfoldable pub enumerate {ℓ} :
    {V : Type ℓ} → (ℕ → V → Outcome (V × ℕ)) → ℕ → Memory → ℕ → V → Outcome (V × Pointer)
enumerate field fuel p i v =
    if magic p i == node_magic_num
    then (fields field fuel (i + data_length p i) (i + 10) v >>= λ (v', j).
        done (v', at (j + null_padding p i)))
    else done (v, null 0)

-- CAppVersionRecord; a text that was not set is empty.
pub record VersionRecord : Type 0 where
  pub description : List ℕ
  pub version_id : ℕ
  pub is_not_available : Bool
  pub launch_option_ids : List ℕ
  pub depot_encryption_key : List ℕ
  pub is_encryption_key_available : Bool
  pub is_rebased : Bool
  pub is_long_version_roll : Bool

unfoldable pub new_version_record : VersionRecord
new_version_record = record {
  description = [];
  version_id = 0;
  is_not_available = false;
  launch_option_ids = [];
  depot_encryption_key = [];
  is_encryption_key_available = false;
  is_rebased = false;
  is_long_version_roll = false;
}

-- `*(bool*)`
unfoldable pub read_bool : Memory → ℕ → Bool
read_bool p i = not (p i == 0)

-- The loop over the launch option ids.
unfoldable pub launch_ids : ℕ → Memory → ℕ → ℕ → Outcome (List ℕ)
launch_ids zero p end i = out_of_fuel
launch_ids (suc fuel) p end i =
    if ltb i end
    then (launch_ids fuel p end (i + 10) >>= λ ids. done (read_le 4 p (i + 10) ∷ ids))
    else done []

-- The case of `eVRLaunchOptionIdsRecord`: the ids of the block at `i`.
unfoldable pub read_launch_ids : ℕ → Memory → ℕ → Outcome (List ℕ)
read_launch_ids fuel p i =
    if magic p i == node_magic_num
    then launch_ids fuel p (i + data_length p i) (i + 10)
    else done []

-- A field of a version record but the launch options; an unknown one leaves the place behind its
-- descriptor.
unfoldable pub plain_version_field : Memory → ℕ → VersionRecord → VersionRecord × ℕ
plain_version_field p i v =
    let type = descriptor_type p i in
    let n = data_length p i in
    let here = i + 10 in
    if type == 1
    then (record v { description = read_bytes p here n }, here + n)
    else if type == 2
    then (record v { version_id = read_le 4 p here }, here + n)
    else if type == 3
    then (record v { is_not_available = read_bool p here }, here + n)
    else if type == 5
    then (record v { depot_encryption_key = read_bytes p here n }, here + n)
    else if type == 6
    then (record v { is_encryption_key_available = read_bool p here }, here + n)
    else if type == 7
    then (record v { is_rebased = read_bool p here }, here + n)
    else if type == 8
    then (record v { is_long_version_roll = read_bool p here }, here + n)
    else (v, here)

unfoldable pub version_field : ℕ → Memory → ℕ → VersionRecord → Outcome (VersionRecord × ℕ)
version_field fuel p i v =
    if descriptor_type p i == 4
    then (read_launch_ids fuel p (i + 10) >>= λ ids.
        done
          (record v { launch_option_ids = v.launch_option_ids ++ ids }, i + 10 + data_length p i))
    else done (plain_version_field p i v)

-- `CAppVersionRecord::Enumerate` of a new record.
unfoldable pub enumerate_version : ℕ → Memory → ℕ → Outcome (VersionRecord × Pointer)
enumerate_version fuel p i = enumerate (version_field fuel p) fuel p i new_version_record

-- CAppFilesystemRecord
pub record FilesystemRecord : Type 0 where
  pub app_id : ℕ
  pub mount_name : List ℕ
  pub is_optional : Bool
  pub valid_os_list : List ℕ

unfoldable pub new_filesystem_record : FilesystemRecord
new_filesystem_record = record {
  app_id = 0;
  mount_name = [];
  is_optional = false;
  valid_os_list = [];
}

unfoldable pub filesystem_field : Memory → ℕ → FilesystemRecord → Outcome (FilesystemRecord × ℕ)
filesystem_field p i v =
    let type = descriptor_type p i in
    let n = data_length p i in
    let here = i + 10 in
    done (
      (if type == 1
          then record v { app_id = read_le 4 p here }
          else if type == 2
          then record v { mount_name = read_bytes p here n }
          else if type == 3
          then record v { is_optional = read_bool p here }
          else if type == 4
          then record v { valid_os_list = read_bytes p here n }
          else v),
      here + n,
    )

-- `CAppFilesystemRecord::Enumerate` of a new record.
unfoldable pub enumerate_filesystem : ℕ → Memory → ℕ → Outcome (FilesystemRecord × Pointer)
enumerate_filesystem fuel p i = enumerate (filesystem_field p) fuel p i new_filesystem_record
