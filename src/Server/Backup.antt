-- ===== src/Server/Backup.antt =====
-- backupAPMLConfiguration of cmd/server/main.go: two copies of the configuration, the latest one and
-- one with the time in its name.
use ai_local.Prelude.{Option, Text, codes, insert, lookup, none, some, ◌++◌, ◌∷◌}
use ai_local.Tls.{Files, WriteFate, not_created, broken_off, written}

-- os.WriteFile.
unfoldable pub write_file : WriteFate → Text → Text → Files → Files
write_file not_created path content files = files
write_file (broken_off part) path content files = insert path part files
write_file written path content files = insert path content files

unfoldable pub latest_name : Text → Text
latest_name plan_name = codes ".apml-" ++ plan_name

unfoldable pub history_name : Text → Text → Text
history_name plan_name timestamp = codes ".apml-" ++ (plan_name ++ b'-' ∷ timestamp)

module _ (join : Text → Text → Text) where
  -- The archive is written even if the snapshot could not be.
  unfoldable pub copy_content :
      Text → Text → Text → WriteFate → WriteFate → Option Text → Files → Files
  copy_content data_dir plan_name timestamp latest_fate history_fate none files = files
  copy_content data_dir plan_name timestamp latest_fate history_fate (some content) files =
      write_file history_fate (join data_dir (history_name plan_name timestamp)) content
        (write_file latest_fate (join data_dir (latest_name plan_name)) content files)

  unfoldable pub backup_apml_configuration :
      Text → Text → Text → Text → WriteFate → WriteFate → Files → Files
  backup_apml_configuration data_dir config_path plan_name timestamp latest_fate history_fate
        files =
      copy_content data_dir plan_name timestamp latest_fate history_fate (lookup config_path files)
        files
