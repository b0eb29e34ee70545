-- ===== src/Brightness/Life.antt =====
-- main of src/brightness_daemon.cpp as a whole: the start, the run and the end of a daemon.
pub mod Reboot
use tjtools.Common.{List}
use tjtools.Common.Result.{Result, ok, err, ◌>>=◌}
use tjtools.Common.Json.{ConfigFile}
use tjtools.Brightness.Backlight.{Io, Call}
use tjtools.Brightness.Daemon.{Event, daemon_main}
use tjtools.Brightness.Privileges.{Accounts, Answers, Process}
use tjtools.Brightness.Startup.{StartError, RawConfig, Machine, SocketAnswers, start}

-- What a host answers to one daemon: at the start, to restoreState and to saveState.
pub record Host : Type 0 where
  pub accounts : Accounts
  pub config : ConfigFile RawConfig
  pub machine : Machine
  pub socket : SocketAnswers
  pub privileges : Answers
  pub process : Process
  pub at_start : Io
  pub at_end : Io

-- An exception of the start, which nothing catches; or how main ends from there on, and the object.
unfoldable pub brightness_main : Host → List Event → Result StartError Call
brightness_main h events = do
  serving ← start h.accounts h.config h.machine h.socket h.privileges h.process
  ok (daemon_main h.at_start events h.at_end serving.context)
