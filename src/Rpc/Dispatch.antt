-- ===== src/Rpc/Dispatch.antt =====
-- The choice of the answer by the method of a request, in `cwmp_agent_analyse_session` of
-- cwmpd/src/agent.c.
use netcwmp.Common.{Option, none, some, Bytes, codes, bytes_eq, if◌then◌else◌}
use netcwmp.Xml.{Xml}
use netcwmp.Soap.{Names, get_rpc_method_name}
use netcwmp.Rpc.{
  Device, Memory, Reply, reply, respond_getrpcmethods, respond_getparameternames,
  respond_getparametervalues, respond_setparametervalues, respond_download, respond_upload,
  respond_reboot, respond_addobject, respond_deleteobject, respond_factoryreset,
}

-- The requests that are answered with a document.
pub data Request : Type 0 where
  getrpcmethods getparameternames getparametervalues setparametervalues : Request
  download upload reboot addobject deleteobject factoryreset : Request

unfoldable pub method_name : Request → Bytes
method_name Request.getrpcmethods = codes "cwmp:GetRPCMethods"
method_name Request.getparameternames = codes "cwmp:GetParameterNames"
method_name Request.getparametervalues = codes "cwmp:GetParameterValues"
method_name Request.setparametervalues = codes "cwmp:SetParameterValues"
method_name Request.download = codes "cwmp:Download"
method_name Request.upload = codes "cwmp:Upload"
method_name Request.reboot = codes "cwmp:Reboot"
method_name Request.addobject = codes "cwmp:AddObject"
method_name Request.deleteobject = codes "cwmp:DeleteObject"
method_name Request.factoryreset = codes "cwmp:FactoryReset"

-- The `if` chain on the method; `none` is a method that gets no document.
unfoldable pub request_of : Bytes → Option Request
request_of m =
    if bytes_eq m (codes "cwmp:GetRPCMethods")
    then some Request.getrpcmethods
    else if bytes_eq m (codes "cwmp:InformResponse")
    then none
    else if bytes_eq m (codes "cwmp:GetParameterNames")
    then some Request.getparameternames
    else if bytes_eq m (codes "cwmp:GetParameterValues")
    then some Request.getparametervalues
    else if bytes_eq m (codes "cwmp:SetParameterValues")
    then some Request.setparametervalues
    else if bytes_eq m (codes "cwmp:Download")
    then some Request.download
    else if bytes_eq m (codes "cwmp:Upload")
    then some Request.upload
    else if bytes_eq m (codes "cwmp:TransferCompleteResponse")
    then none
    else if bytes_eq m (codes "cwmp:Reboot")
    then some Request.reboot
    else if bytes_eq m (codes "cwmp:AddObject")
    then some Request.addobject
    else if bytes_eq m (codes "cwmp:DeleteObject")
    then some Request.deleteobject
    else if bytes_eq m (codes "cwmp:FactoryReset")
    then some Request.factoryreset
    else none

module _ {S : Type 0} (n : Names) (mem : Memory) where
  unfoldable pub respond : Request → Xml → Device S → Reply S
  respond Request.getrpcmethods = respond_getrpcmethods n mem
  respond Request.getparameternames = respond_getparameternames n mem
  respond Request.getparametervalues = respond_getparametervalues n mem
  respond Request.setparametervalues = respond_setparametervalues n mem
  respond Request.download = respond_download n mem
  respond Request.upload = respond_upload n mem
  respond Request.reboot = respond_reboot n mem
  respond Request.addobject = respond_addobject n mem
  respond Request.deleteobject = respond_deleteobject n mem
  respond Request.factoryreset = respond_factoryreset n mem

  -- `newdoc` behind the chain, for the method of a document.
  unfoldable pub dispatch_named : Option Bytes → Xml → Device S → Reply S
  unfolding request_of respond
  dispatch_named none doc d = reply none d
  dispatch_named (some m) doc d = elim (request_of m) [
    | none ↦ reply none d
    | some r ↦ respond r doc d
  ]

  unfoldable pub dispatch : Xml → Device S → Reply S
  unfolding dispatch_named
  dispatch doc d = dispatch_named (get_rpc_method_name n doc) doc d
