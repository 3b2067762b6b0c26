-- ===== src/Cli/Views.antt =====
-- `SessionRecord.public_dict` and `SessionInspection.to_dict` of src/blendersessiond/sessions.py, and
-- the failures that src/blendersessiond/cli.py prints.
use blendersessiond.Base.{pos, String, Bool, Option, none, some, str_eq, if◌then◌else◌}
use blendersessiond.Json.{Json, bool, int, str, obj, Fields, field, end}
use blendersessiond.Sessions.Record.{SessionRecord, or_none}
use blendersessiond.Sessions.Inspection.{SessionInspection, status_text, is_healthy}

-- `dict.update`-like: further entries behind those that a dict has.
unfoldable pub append : Fields → Fields → Fields
append end others = others
append (field k v rest) others = field k v (append rest others)

unfoldable pub public_dict : SessionRecord → Fields
public_dict r = field "session_id" (str r.session_id) (
    field "name" (str r.name) (
      field "pid" (int r.pid) (
        field "process_start_time" (str r.process_start_time) (
          field "mcp_port" (int r.mcp_port) (
            field "blender"
              (obj
                (field "path" (str r.blender_path) (field "version" (str r.blender_version) end)))
              (field "logs"
                (obj (field "stdout" (str r.stdout_log) (field "stderr" (str r.stderr_log) end)))
                (field "state_dir" (str r.state_dir) (
                  field "started_at" (str r.started_at)
                    (field "scene_path" (or_none r.scene_path) end)))))))))

abbrev named : String → Option SessionRecord → Fields
named name none = field "name" (str name) end
named name (some r) = public_dict r

abbrev unsaved_json : Option Bool → Json
unsaved_json none = str "unknown"
unsaved_json (some b) = bool b

health_dict : SessionInspection → Fields
health_dict i = field "status" (str (if is_healthy i.status then "healthy" else "unhealthy")) (
    field "process"
      (obj (
        field "status" (str (if i.process_alive then "healthy" else status_text i.status))
          (field "alive" (bool i.process_alive) end)))
      (field "socket"
        (obj (
          field "status" (str i.socket_status) (
            field "answered" (bool (str_eq i.socket_status "healthy"))
              (field "reason" (str i.socket_reason) (field "message" (str i.socket_message) end)))))
        end))

unfoldable pub inspection_dict : SessionInspection → Fields
unfolding health_dict append
inspection_dict i = append (named i.name i.session) (
    field "status" (str (status_text i.status)) (
      field "message" (str i.message) (
        field "reclaimable" (bool i.reclaimable) (
          field "unsaved_changes" (unsaved_json i.unsaved_changes)
            (field "health" (obj (health_dict i)) end)))))

abbrev reason_field : Option String → Fields
reason_field none = end
reason_field (some reason) = field "reason" (str reason) end

-- `_print_failure` with `--json`
unfoldable pub failure_dict : String → String → Option String → Fields
failure_dict command text reason = field "schema_version" (int (pos 1)) (
    field "status" (str "error")
      (field "command" (str command) (field "message" (str text) (reason_field reason))))
