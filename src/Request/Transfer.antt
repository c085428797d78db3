-- ===== src/Request/Transfer.antt =====
-- Download, Upload and Reboot: what libcwmp/src/cwmp.c reads from the requests, and the copies of the
-- arguments that go into the task queue.
use netcwmp.Common.{ℕ, Bool, true, false, Option, none, some, Bytes, codes, to_unsigned}
use netcwmp.Xml.{Xml, elem, other, get_node_value, get_child_with_name}
use netcwmp.Soap.{Names, atoi_of, get_rpc_method_node}

-- `download_arg_t`
pub record DownloadArg : Type 0 where
  pub cmdkey : Option Bytes
  pub filetype : Option Bytes
  pub url : Option Bytes
  pub username : Option Bytes
  pub password : Option Bytes
  pub filesize : ℕ
  pub targetname : Option Bytes
  pub delaysec : ℕ
  pub succurl : Option Bytes
  pub failurl : Option Bytes

-- `upload_arg_t`
pub record UploadArg : Type 0 where
  pub cmdkey : Option Bytes
  pub filetype : Option Bytes
  pub url : Option Bytes
  pub username : Option Bytes
  pub password : Option Bytes
  pub delaysec : ℕ

-- The value of a child of the method.
abbrev pub text_of : Xml → Bytes → Option Bytes
text_of rpc name = get_node_value (get_child_with_name rpc name)

-- `cwmp_parse_download_message`
unfoldable pub parse_download_message : Names → Xml → DownloadArg
parse_download_message n doc =
    let rpc = get_rpc_method_node n doc in
    record {
      cmdkey = text_of rpc (codes "CommandKey");
      filetype = text_of rpc (codes "FileType");
      url = text_of rpc (codes "URL");
      username = text_of rpc (codes "Username");
      password = text_of rpc (codes "Password");
      filesize = to_unsigned (atoi_of (text_of rpc (codes "FileSize")));
      targetname = text_of rpc (codes "TargetFileName");
      delaysec = to_unsigned (atoi_of (text_of rpc (codes "DelaySeconds")));
      succurl = text_of rpc (codes "SuccessURL");
      failurl = text_of rpc (codes "FailureURL");
    }

-- `cwmp_parse_upload_message`
unfoldable pub parse_upload_message : Names → Xml → UploadArg
parse_upload_message n doc =
    let rpc = get_rpc_method_node n doc in
    record {
      cmdkey = text_of rpc (codes "CommandKey");
      filetype = text_of rpc (codes "FileType");
      url = text_of rpc (codes "URL");
      username = text_of rpc (codes "Username");
      password = text_of rpc (codes "Password");
      delaysec = to_unsigned (atoi_of (text_of rpc (codes "DelaySeconds")));
    }

-- `cwmp_clone_download_arg`, each field a copy of the string; `mem` says whether the allocation of
-- the new argument succeeds.
unfoldable pub clone_download_arg : Bool → Option DownloadArg → Option DownloadArg
clone_download_arg mem none = none
clone_download_arg false (some a) = none
clone_download_arg true (some a) = some (record {
  cmdkey = a.cmdkey;
  filetype = a.filetype;
  url = a.url;
  username = a.username;
  password = a.password;
  filesize = a.filesize;
  targetname = a.targetname;
  delaysec = a.delaysec;
  succurl = a.succurl;
  failurl = a.failurl;
})

-- `cwmp_clone_upload_arg`
unfoldable pub clone_upload_arg : Bool → Option UploadArg → Option UploadArg
clone_upload_arg mem none = none
clone_upload_arg false (some a) = none
clone_upload_arg true (some a) = some (record {
  cmdkey = a.cmdkey;
  filetype = a.filetype;
  url = a.url;
  username = a.username;
  password = a.password;
  delaysec = a.delaysec;
})

-- `cwmp_parse_reboot_message`: the command key that it stores with `CWMP_OK`; `none` is
-- `CWMP_ERROR`.
unfoldable pub parse_reboot_message : Names → Xml → Option (Option Bytes)
parse_reboot_message n doc =
    elim (get_child_with_name (get_rpc_method_node n doc) (codes "CommandKey")) [
      | Xml.null ↦ none
      | elem m v attrs child next ↦ some (get_node_value (elem m v attrs child next))
      | other k m v next ↦ some (get_node_value (other k m v next))
    ]
