-- ===== src/Lib.antt =====
-- Verification library of octopusd, a daemon that receives files for web sites and passes them on
-- to the servers of each site.
--
-- The program. sharelib/QueueMng.cpp keeps the duties: the received ones in work (m_mapRecvingQ),
-- those that wait for a server (m_lstSendQ, and m_lstSendErrorQ for servers that failed) and those
-- being sent (m_mapSendingQ). Receive threads check a duty in, put it for each server of its site
-- and end it; send threads take duties, and put one back when its server fails; a check thread
-- moves duties of recovered servers back and drops those of servers that are no longer configured.
-- Duties for which there is no room go to the files dat/failduty.<number>. sharelib/ProtocolMng.cpp
-- speaks with clients and other daemons: processRecv is a turn of a receive thread, processSend one
-- of a send thread, with the text and message helpers of sharelib/ComFun.cpp. sharelib/ConfigMng.cpp
-- keeps the common configuration and the table of sites, which it reads from files with
-- sharelib/Config.cpp or from a database; sharelib/ServerMng.cpp changes that table at run time;
-- and sharelib/Maintain.cpp serves the commands that are set as flags in shared memory, refreshes
-- the configuration, takes servers that answer again off the table of failing ones and has failed
-- duties put again. A management console sends messages of a second version (processVersion2 of
-- sharelib/ProtocolMng.cpp), which show and change the files of the configuration and the queues.
--
-- The files.
--   Prelude: names of the libraries, Boolean tests, lists measured by native numbers, texts as
--     lists of bytes (strcmp as bytes_eq and bytes_lt), std::map as an association list in the
--     order of its keys, the C int with printf's %d and atoi, and chains of steps that may fail
--     (Chain).
--   Config: the tables of sharelib/ConfigMng.h, ComCfg.h, getSiteRootDir, getSiteServer,
--     checkServerExist.
--   ConfigFile: sharelib/Config.cpp, the files of sections and items. Below it what is proved of
--     printed files (RoundTrip) and of blanks (Blanks).
--   Setup: init of sharelib/ConfigMng.cpp for the common configuration, with Sites for the file of
--     sites and readInfoFromDB, and Ranges and Servers for what an accepted configuration keeps.
--   Queue: the members of CQueueMng as the record QueueMng, CRecvingDuty, CSendDuty. Below it
--     Check (check, judgeNormal, setOver), FailLog (putFailDuty2File, saveDutyQueue2File, init),
--     Put (putDuty2SendQ), Take (getDutyFSendQ), Upkeep (mvErrorQ2SendQ, clearDisabledDuty,
--     clearErrorIPPort, getQueueInfo, initThreadStatInfo, what printStatInfo resets), Reload
--     (getFailDutyFFile2DutyQ) and Run, the threads of src/octopusd.cpp as sequences of calls.
--     Below Reload are its calls (Calls), a duty that was written before (Saved) and a late duty
--     (Stale); below Run what histories of calls keep (Exclusive, Ledger, Settings, Appends) and
--     when a duty is served (Service).
--   Sender: processSend of sharelib/ProtocolMng.cpp. Below it Ends (its loops end), Content (what
--     is sent of a file), Rounds (the looks at the duty before its blocks), Message (what a
--     message is for the queues), Calls (the turn as calls of the queues) and Lost (a block that
--     is not sent).
--   Receiver: of processRecv, the loop that takes a file's data in, what stands around it (Upload),
--     a file that is sent by its name (Named), and the deletions, moves and copies (Orders), with
--     Calls for what these are for the queues.
--     Below it Ends (the loop ends), Buffer (the write buffer), Installed (what is put at the
--     file's place), Runs (a receipt as calls of the queues) and Cut (a response that is not sent).
--   Head: the messages of the first version as the bytes of CFileUploadMsg, CFileDelMsg,
--     CFileMvCpMsg, CServerAddMsg and CServerDelMsg, with RoundTrip for what is read back.
--   Turn: processRecv as a whole, from the head of a message to the response, with Answers for how
--     a turn ends, and checkServerStatus, with Ping for both of its sides.
--   Client: CRsyncOct of api/RsyncOct.cpp, which clients send a message with. Below it Messages
--     (what a daemon reads), Content (the whole file is sent) and Pack (setUploadPackInfo).
--   Maintain: process, the flags, refreshCommonCfg, refreshSiteInfo, closeAllSocket and the part
--     of routine that looks at failed servers, of sharelib/Maintain.cpp, with Flags, Refresh and
--     Recovery for their proofs, Reload for reloadFailDuty and routineFailDuty with Steps for what
--     they are for the queues and the flags, and Routine for routine with its times,
--     checkFailDutyExist and sendMobileMsg.
--   Manager: what processVersion2 of sharelib/ProtocolMng.cpp reaches, with cpFile,
--     readWholeFileContent and writeWholeFileContent of sharelib/ComFun.cpp. Below it Update (a new
--     content of a configuration file, with Atomic), Tree (the list of sites), Forward
--     (forwardVersion2Msg), Clone (cloneSiteCfg, with Safe) and Handle (the handler, and getCurInfo
--     of sharelib/QueueMng.cpp), with Range and Missing for the parts that it reads.
--   Server: addServer and delServer of sharelib/ServerMng.cpp.
--   Socket: sendMsg and receiveMsg of sharelib/TCPSocket.cpp, and Check for checkSocket.
--   Wire: sendVersion2Msg, recvVersion2Msg, setVersion2Resp of sharelib/ProtocolMng.cpp and the
--     msg_put and msg_get functions of sharelib/ComFun.cpp.
--   Pool: the pool of connections that pthread_connect and pthread_recv of src/octopusd.cpp share.
--   Text: getFlagStr, divideupStr (Flag), trimString (Trim), getSubStrByWord (Words), find8Replace
--     (Replace), divPathFile, getFileType (FilePath), convertSIP2UIIP, checkIP (Ip), analysePathFile
--     (Path), readEqualValueFile (EqualFile).
--   Examples: the theorems at concrete inputs, and runs.
-- A function of the source has its name in the model, in lower case with underscores. A method
-- takes the state and returns the new one; a method that asks for the calling thread takes its
-- number first.
--
-- Threads. Each method of CQueueMng that changes the queues takes the class's lock at its start
-- and gives it back at its end, so a call is one step, and a history of calls in any order stands
-- for any interleaving. judgeNormal and setOver take no lock and are each one access. A turn of a
-- send or a receive thread takes, at each place where another thread may come between, the list of
-- the calls that come there; no refresh of the configuration comes between.
--
-- Parameters. The outcome of each attempt to open or write a file of failed duties is an argument
-- (FailIo), as are what checkSocket, send and recv answer, one entry for each turn of a loop, what
-- the socket gives to a receipt (receive_msg of Wire) and what stat answers. A turn of a send
-- thread takes the outcome of its connection, file and messages (SendEnv, BlockEnv), a receipt the
-- outcome of its paths, files and messages (RecvEnv, InBlock, OrderEnv, NameEnv), a reload those of
-- its files and paths (ReloadEnv), and a management message the outcome of its copies and its
-- write, the date and which servers can be reached (HandlerEnv, Write). A whole turn of a receive
-- thread takes all of these with the bytes of its message (TurnEnv), and a question for a server's
-- state what the server does (PingEnv). A client takes what its connection, file and commands give
-- (ExecuteEnv, PackEnv). The configuration
-- files are their bytes and a database is its rows (Sources, DbRow); whether a failed server
-- answers is the answer of checkServerStatus. The fixed buffers of the source are taken as large
-- enough. The number of failures of a server wraps around at 2^32 as its unsigned int does, and a
-- number of the configuration is what atoi makes of its text in 32 bits, behind a strtol of 64
-- (as_int). What an upload, a deletion, a move or a copy does to the file system is part of the
-- answer of its turn and is not followed further, so nothing is said of the files of the
-- configuration where a received path leads there.
--
-- Fuel. divide_loop, replace_loop and recv_loop run on fuel. The length of the text, and one more
-- for the first two, is enough, since each round shortens the rest, unless replace_loop looks for
-- the empty text. send_file, send_chunk and recv_data run on the number of the bytes left, and
-- load_lines, equal_lines, client_file and client_chunk on the length of what they read, which are
-- enough since each round takes one byte or more.
--
-- Not modelled: creating and closing sockets, shared memory and processes; what an init that fails
-- leaves; and what only prints, logs, sleeps or runs shell commands, with the short messages that
-- an alarm is sent as. The command line tool, the sockets under api and the bindings are clients
-- of the daemon.
pub mod Prelude
pub mod Config
pub mod ConfigFile
pub mod Queue
pub mod Text
pub mod Socket
pub mod Wire
pub mod Pool
pub mod Receiver
pub mod Head
pub mod Turn
pub mod Client
pub mod Sender
pub mod Server
pub mod Setup
pub mod Maintain
pub mod Manager
pub mod Examples
