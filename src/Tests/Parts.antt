-- ===== src/Tests/Parts.antt =====
-- The theorems on wire.py, processes.py and discovery.py of src/blendersessiond at concrete inputs.
use blendersessiond.Base.{
  ℕ, arith, pos, ◌≡◌, refl, ◌≢◌, none, List, [], ◌∷◌, ◌++◌, All, if◌then◌else◌,
}
use mathlib.Core.Path.{subst}
use blendersessiond.Json.{obj, end}
use blendersessiond.Exec.{ok, pure, ◌>>=◌}
use blendersessiond.Exec.Raises.{Raises}
use blendersessiond.Wire.Utf8.{decode, text, decode_from}
use blendersessiond.Wire.Receive.{eof, no_json, receive_json}
use blendersessiond.Wire.Chunks.{IsMessage, delivered, receive_json-delivered}
use blendersessiond.Wire.Client.{call_addon, probe_addon, query_unsaved_changes}
use blendersessiond.Wire.Failures.{
  IsJsonError, IsCallError, call_addon-Raises, probe_addon-Raises, query_unsaved_changes-Raises,
}
use blendersessiond.Processes.Tree.{owned_tree_exists, terminate_owned_tree}
use blendersessiond.Processes.Ownership.{
  Targets, kill_tree, terminate_owned_tree-Targets, terminate_owned_tree-owned_tree_exists,
}
use blendersessiond.Discovery.Select.{
  ProbedCandidate, Probes, passed, choose_probed, choose, selected_from, in_order,
}
use blendersessiond.Discovery.Newest.{IsNewest, choose_probed-IsNewest}
use blendersessiond.Sessions.Disk.{Store}
use blendersessiond.Tests.Machine.{clock_kernel, brace_network, braces, one_session}

text-injective : {as' bs : List ℕ} → text as' ≡ text bs → as' ≡ bs
text-injective e = cc

-- A proper beginning of `{}` is no JSON text.
beginning-none :
    (front back cs : List ℕ)
    → front ++ back ≡ 123 ∷ 125 ∷ []
    → back ≢ []
    → decode front ≡ text cs
    → braces cs ≡ no_json
unfolding decode decode_from
beginning-none [] back cs whole ne e = subst (λ bs. braces bs ≡ no_json) (text-injective e) refl
beginning-none (x ∷ []) back cs whole ne e =
    let first : x ≡ 123 = cc in
    let read : text (123 ∷ []) ≡ text cs = subst (λ b. decode (b ∷ []) ≡ text cs) first e in
    subst (λ bs. braces bs ≡ no_json) (text-injective read) refl
beginning-none (x ∷ y ∷ []) back cs whole ne e = absurd (ne cc)
beginning-none (x ∷ y ∷ z ∷ front) back cs whole ne e = cc

braces-IsMessage : IsMessage braces (123 ∷ 125 ∷ []) (obj end)
unfolding decode decode_from
braces-IsMessage = record {
  characters = 123 ∷ 125 ∷ [];
  decodes = refl;
  accepted = refl;
  minimal = beginning-none;
}

receive_json-delivered_example :
    receive_json braces [] (delivered ((123, []) ∷ (125, []) ∷ []) eof) ≡ ok (obj end)
receive_json-delivered_example =
    receive_json-delivered braces (obj end) (123, []) ((125, []) ∷ []) eof braces-IsMessage

call_addon-Raises_example :
    Raises {D = Store}
      (IsCallError braces)
      (call_addon brace_network 9876 "get_scene_info" none 3000 180000)
call_addon-Raises_example =
    call_addon-Raises brace_network 9876 "get_scene_info" none 3000 180000 (omega arith)
      (omega arith) (omega arith) (omega arith)

probe_addon-Raises_example :
    Raises {D = Store} (IsJsonError braces) (probe_addon brace_network 9876 2)
probe_addon-Raises_example = probe_addon-Raises brace_network 9876 2 (omega arith)

query_unsaved_changes-Raises_example :
    Raises {D = Store} (IsCallError braces) (query_unsaved_changes brace_network 9876)
query_unsaved_changes-Raises_example = query_unsaved_changes-Raises brace_network 9876

terminate_owned_tree-Targets_example :
    All
      (Targets (pos 40))
      (terminate_owned_tree clock_kernel
        (pos 41)
        "linux:boot:777"
        (pos 40)
        "linux:boot:777"
        one_session).1.events
terminate_owned_tree-Targets_example =
    terminate_owned_tree-Targets clock_kernel (pos 41) "linux:boot:777" (pos 40) "linux:boot:777"
      one_session tt

abbrev older_blender : ProbedCandidate
older_blender = record { path = "/usr/bin/blender"; version = "3.6"; version_key = (3, 6, 0) }

abbrev newer_blender : ProbedCandidate
newer_blender = record { path = "/opt/blender/blender"; version = "4.2.1"; version_key = (4, 2, 1) }

abbrev two_probes : Probes
two_probes = record { probed = newer_blender ∷ older_blender ∷ []; failures = [] }

choose_probed-IsNewest_example :
    IsNewest (newer_blender ∷ older_blender ∷ []) (choose_probed "PATH" "PATH" two_probes)
unfolding passed choose_probed choose selected_from in_order
choose_probed-IsNewest_example = choose_probed-IsNewest "PATH" "PATH" two_probes refl

terminate_owned_tree-owned_tree_exists_example :
    terminate_owned_tree clock_kernel
      (pos 41)
      "linux:boot:777"
      (pos 40)
      "linux:boot:777"
      one_session
    ≡ (owned_tree_exists clock_kernel (pos 41) "linux:boot:777" (pos 40) "linux:boot:777"
          >>= λ there.
              if there
              then kill_tree clock_kernel (pos 41) "linux:boot:777" (pos 40) "linux:boot:777"
              else pure tt)
        one_session
terminate_owned_tree-owned_tree_exists_example =
    terminate_owned_tree-owned_tree_exists clock_kernel (pos 41) "linux:boot:777" (pos 40)
      "linux:boot:777" one_session
