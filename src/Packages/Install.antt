-- ===== src/Packages/Install.antt =====
-- src/synology_mcp/packages.py: `packages_install`.
use synology_mcp.Base.{
  ℤ, pos, leb_ℤ, ltb_ℤ, String, ◌<>◌, ◌==◌, Bool, true, false, not, ◌&&◌, Option, none, some, List,
  [], ◌∷◌, ◌++◌, if◌then◌else◌,
}
use synology_mcp.Base.Dict.{Dict}
use synology_mcp.Json.{Value, bool, int, text, Fields, get, truthy, or_value, object, optional}
use synology_mcp.Errors.{Exc}
use synology_mcp.Builtins.{as_dict, or_empty, show_int, to_text}
use synology_mcp.Platform.{Platform}
use synology_mcp.Config.{Config}
use synology_mcp.Exec.{Exec, pure, throw, lift, ◌>>=◌, try_with}
use synology_mcp.Transport.Envelope.{Call, extract_warnings}
use synology_mcp.Helpers.{Envelope, success_envelope, refusal_envelope}
use synology_mcp.Auth.{call_dsm}
use synology_mcp.Packages.{
  empty_id, server_list, extract_dsm_error_code, extract_eula_text, find_catalog_row, task_of,
  get_installed_package, poll_install_task, version_of,
}

abbrev flag_text : Bool → Value
flag_text b = text (if b then "true" else "false")

unfoldable pub installed_envelope :
    String → String → Bool → String → String → List String → Envelope
installed_envelope host id installed version method warnings =
    success_envelope host
      (object (
        ("installed", bool installed)
        ∷ ("version", text version)
        ∷ ("method", text method)
        ∷ ("package_id", text id)
        ∷ []))
      warnings

unfoldable pub upgrade_refusal : String → String → String → Option String → Envelope
upgrade_refusal host id installed requested =
    refusal_envelope host
      (("category", text "upgrade_required")
        ∷ ("package_id", text id)
        ∷ ("installed_version", text installed)
        ∷ ("requested_version", optional requested)
        ∷ (
          "next_step",
          text
              "in-place upgrade is not implemented in MVP; uninstall first or run the upgrade from the Package Center UI",
        )
        ∷ [])
      []

unfoldable pub catalog_refusal : String → String → List String → Envelope
catalog_refusal host id warnings =
    refusal_envelope host
      (("category", text "not_in_catalog")
        ∷ ("package_id", text id)
        ∷ (
          "next_step",
          text
              "the Synology package catalog (Server.list v2) does not contain this id for the current DSM build; verify the package_id spelling or install from a downloaded .spk via the DSM UI (spk_fallback is documented in the module docstring but not yet implemented)",
        )
        ∷ [])
      warnings

unfoldable pub version_refusal : String → String → Option String → String → List String → Envelope
version_refusal host id requested offered warnings =
    refusal_envelope host
      (("category", text "version_mismatch")
        ∷ ("package_id", text id)
        ∷ ("requested_version", optional requested)
        ∷ ("catalog_version", text offered)
        ∷ (
          "next_step",
          text
              "Synology's online catalog only carries the latest version for this DSM build; specify version=None to install whatever the catalog offers, or fetch the exact version as a .spk manually",
        )
        ∷ [])
      warnings

unfoldable pub online_refusal : String → String → ℤ → List String → Envelope
online_refusal host id code warnings =
    refusal_envelope host
      (("category", text "online_install_failed")
        ∷ ("package_id", text id)
        ∷ ("dsm_error_code", int code)
        ∷ (
          "next_step",
          text "retry later (transient network errors), or install manually via the DSM UI",
        )
        ∷ [])
      warnings

unfoldable pub eula_refusal : String → String → String → List String → Envelope
eula_refusal host id eula warnings =
    refusal_envelope host
      (("category", text "eula_required")
        ∷ ("package_id", text id)
        ∷ ("eula_text", text eula)
        ∷ ("next_step", text "re-call with accept_eula=True to agree to the EULA and proceed")
        ∷ [])
      warnings

abbrev is_version : Option String → String → Bool
is_version none v = true
is_version (some w) v = v == w

abbrev nonempty : Option String → Bool
nonempty none = false
nonempty (some s) = not (s == "")

-- `code in range(1000, 2000)`
abbrev pub is_online_error : ℤ → Bool
is_online_error code = leb_ℤ (pos 1000) code && ltb_ℤ code (pos 2000)

module _ ⦃P : Platform⦄ where
  abbrev text_or : Fields → String → String → Value
  text_or row key other = text (to_text (or_value (get row key) (text other)))

  -- `_build_install_params`
  unfoldable pub build_install_params : Fields → String → Bool → Dict Value
  build_install_params row id accept_eula =
      ("name", text id)
      ∷ ("is_syno", flag_text (P.lower (to_text (or_value (get row "source") (text ""))) == "syno"))
      ∷ ("beta", flag_text (truthy (get row "beta")))
      ∷ ("url", text_or row "link" "")
      ∷ ("checksum", text_or row "md5" "")
      ∷ ("filesize", text_or row "size" "0")
      ∷ ("type", text_or row "type" "0")
      ∷ ("blqinst", flag_text (truthy (get row "qinst")))
      ∷ ("operation", text "install")
      ∷ (if accept_eula then ("accept_eula", text "true") ∷ [] else [])

  abbrev pub install_call : Fields → String → Bool → Call
  install_call row id accept_eula = record {
    api = "SYNO.Core.Package.Installation";
    method = "install";
    version = pos 1;
    params = build_install_params row id accept_eula;
  }

  abbrev version_or_empty : Option Fields → String
  version_or_empty none = ""
  version_or_empty (some d) = version_of d

  -- the check at the end
  unfoldable pub confirm_install : Config → String → String → List String → Exec Envelope
  confirm_install config host id warnings = do
    installed ← get_installed_package config host id
    pure (installed_envelope host id true (version_or_empty installed) "online" warnings)

  -- the polling, if there is a task, and the check
  unfoldable pub finish_install : Config → String → String → List String → Fields → Exec Envelope
  finish_install config host id warnings body = do
    d ← lift (as_dict (or_empty (get body "data")))
    if truthy (task_of d)
        then (do
          last ← poll_install_task config host (to_text (task_of d))
          confirm_install config host id (warnings ++ extract_warnings last))
        else confirm_install config host id warnings

  -- the EULA gate
  unfoldable pub after_install :
      Config → String → String → Bool → List String → Fields → Exec Envelope
  after_install config host id accept_eula warnings body = elim (extract_eula_text body) [
    | some eula ↦
        if accept_eula
        then finish_install config host id (warnings ++ extract_warnings body) body
        else pure (eula_refusal host id eula warnings)
    | none ↦ finish_install config host id (warnings ++ extract_warnings body) body
  ]

  -- a version that was asked for and that the catalog does not offer
  unfoldable pub is_mismatch : Option String → String → Bool
  is_mismatch requested offered =
      nonempty requested && (not (offered == "") && not (is_version requested offered))

  abbrev pub online_error : Option ℤ → Option ℤ
  online_error none = none
  online_error (some code) = if is_online_error code then some code else none

  unfoldable pub online_failure : String → String → List String → Exc → Exec Envelope
  online_failure host id warnings e = elim (online_error (extract_dsm_error_code e)) [
    | none ↦ throw e
    | some code ↦ pure (
        online_refusal host id code (
          warnings
          ++ (("online install failed with DSM "
                <> (show_int code
                    <> " — the spk_fallback path (manual .spk upload) is documented but not yet implemented in this MCP"))
              ∷ [])))
  ]

  -- the call that installs
  unfoldable pub install_online :
      Config → String → String → Bool → Fields → List String → Exec Envelope
  unfolding online_failure
  install_online config host id accept_eula row warnings =
      try_with (call_dsm config host (install_call row id accept_eula))
        (λ body. after_install config host id accept_eula warnings body)
        (λ e. online_failure host id warnings e)

  -- from the row of the catalog on
  unfoldable pub install_row :
      Config → String → String → Option String → Bool → List String → Option Fields → Exec Envelope
  install_row config host id version accept_eula warnings none =
      pure (catalog_refusal host id warnings)
  install_row config host id version accept_eula warnings (some row) =
      if is_mismatch version (version_of row)
      then pure (version_refusal host id version (version_of row) warnings)
      else install_online config host id accept_eula row warnings

  install_existing : String → String → Option String → String → Envelope
  install_existing host id version existing =
      if is_version version existing
      then installed_envelope host id false existing "noop"
          (("already at version " <> existing) ∷ [])
      else upgrade_refusal host id existing version

  -- from the row of the installed package on
  unfoldable pub install_unless :
      Config → String → String → Option String → Bool → Option Fields → Exec Envelope
  unfolding install_existing
  install_unless config host id version accept_eula (some d) =
      pure (install_existing host id version (version_of d))
  install_unless config host id version accept_eula none = do
    body ← call_dsm config host server_list
    d ← lift (as_dict (or_empty (get body "data")))
    install_row config host id version accept_eula (extract_warnings body) (find_catalog_row d id)

  -- `packages_install`
  unfoldable pub packages_install : Config → String → String → Option String → Bool → Exec Envelope
  packages_install config host id version accept_eula =
      if id == "" then throw (empty_id host) else (do
        existing ← get_installed_package config host id
        install_unless config host id version accept_eula existing)
