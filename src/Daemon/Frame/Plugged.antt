-- ===== src/Daemon/Frame/Plugged.antt =====
-- What is plugged in and out leaves the phase, the place and the migration alone.
use ch_vmm.Prelude.{String, List, [], ◌∷◌}
use ch_vmm.Api.{Volume}
use ch_vmm.Controller.Program.{
  return-Keeps, bind-Keeps, then-Keeps, must-Keeps, if-Keeps, option-Keeps,
}
use ch_vmm.Controller.Machine.{VolumeStatus}
use ch_vmm.Daemon.{Vm, VmInfo, Server, Node}
use ch_vmm.Daemon.Plugs.{
  last_status, plug, mark_ready, add_known, add_volumes, remove_disks, reconcile_volumes,
}
use ch_vmm.Daemon.Frame.{Frames, frames, event-Frames, get_status-Frames, call-Frames}
use ch_vmm.Daemon.Frame.Mounted.{is_block-Frames, mount_volumes-Frames, umount_volumes-Frames}

module _ (server : Server) (node : Node) (vm : Vm) where
  plug-Frames : (v : Volume) → Frames (plug server node vm v)
  unfolding plug
  plug-Frames v = search (frames, is_block-Frames) depth 8

  mark_ready-Frames : (n : String) → Frames (mark_ready server node vm n)
  unfolding mark_ready
  mark_ready-Frames n = search frames

  add_known-Frames :
      (v : Volume) (s : VolumeStatus) (i : VmInfo) → Frames (add_known server node vm v s i)
  unfolding add_known
  add_known-Frames v s i = search (frames, plug-Frames, mark_ready-Frames)

  add_volumes-Frames : (vs : List Volume) (i : VmInfo) → Frames (add_volumes server node vm vs i)
  unfolding add_volumes
  add_volumes-Frames [] i = search frames
  add_volumes-Frames (v ∷ vs) i =
      if-Keeps _
        (bind-Keeps get_status-Frames (λ s.
          then-Keeps
            (option-Keeps (last_status v.name s.volumes) (return-Keeps tt)
              (λ known. add_known-Frames v known i))
            (add_volumes-Frames vs i)))
        (add_volumes-Frames vs i)

  remove_disks-Frames : (ds : List String) → Frames (remove_disks server node vm ds)
  unfolding remove_disks
  remove_disks-Frames [] = search frames
  remove_disks-Frames (d ∷ ds) = if-Keeps _ (remove_disks-Frames ds) (
      bind-Keeps get_status-Frames (λ s. bind-Keeps (call-Frames server _) (λ a.
        then-Keeps (must-Keeps a)
          (then-Keeps (event-Frames "RemoveDiskFromVM") (remove_disks-Frames ds)))))

  pub reconcile_volumes-Frames : (i : VmInfo) → Frames (reconcile_volumes server node vm i)
  unfolding reconcile_volumes
  reconcile_volumes-Frames i =
      search (
        frames, mount_volumes-Frames, add_volumes-Frames, remove_disks-Frames,
        umount_volumes-Frames,
      )
