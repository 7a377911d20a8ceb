-- ===== src/Lib.antt =====
-- The customer print client: a desktop program that renders documents, sends their pages to a
-- print server as jobs and follows those jobs.
--
-- Parts and files (paths from the root of the repository):
-- - Prelude/: library names, Boolean tests, lists, texts as lists of bytes, and Dict, the
--   std::unordered_map as an association list.
-- - Jobs/ is src/CustomerPrintClientCore/JobProcessor.cpp. Processor holds the state of
--   JobProcessorImpl and its registry m_pendingJobs; Upload the chain of server calls
--   (CreateJobAndUploadPages, UploadNextPage, CompleteSuccessfulJob, GetNewJobInfo, CancelServerJob
--   and their callbacks); Render the render task; Machine runs callbacks as steps on events that
--   come in any order. Advance, Callbacks, Settled, Termination, Cancelling, Successes and Uploading
--   prove.
-- - Networking/Http/ is src/Networking/Http: Definitions, Number (std::to_string and the extraction
--   of numbers), Content (HttpContent.cpp), Request, Response with the reading of status line and
--   headers by HttpClientMT.cpp, Exchange, the chain of handlers of one of its sessions, Client, its
--   sessions, retries and socket pool, and SingleClient, which is HttpClient.cpp. Framing, Headers,
--   StatusLine, ReadBack, Outcomes, Sessions, SingleSteps, SingleOrder and SingleCancel prove.
-- - Cloud/ is src/CustomerPrintClientCore/CloudPrintClient.cpp: Requests builds what each Async
--   function posts, Replies is what its callback makes of a response. JobInfo is
--   PrintJobInfo.cpp, Listings the callbacks that read offices and jobs, and Updates and
--   UpdateClient the update list and the downloads of UpdateClient.cpp with the choice in
--   CoreManager.cpp. Laws and UpdateClient prove.
-- - Manager/ is src/CustomerPrintClientCore/CoreManager.cpp. State holds its members and the calls
--   without the server, Printing the start of printing, Calls the Async members with their
--   callbacks, Machine runs calls and answers as steps, with one promise for each call. Effects,
--   Promises,
--   Progress, Settled, Choice, Profile, Heap, Kept, Usable, Stored and Catalogue prove. ResultQueue
--   is src/CustomerPrintClientGui/AsyncResultQueue.cpp, where a window polls the promises.
-- - Offices/ is PrintProfile.cpp, PrintOffice.cpp and ConvertPrintProfile.cpp there. Selection,
--   Loaded and Flags prove.
-- - Core/ is src/Core: file names, versions, the configuration (Config, with ConfigPaths for its
--   proofs), the credentials cache and the readers that were added to the JSON library (Json).
-- - Printing/ is src/Printing: image formats and print settings; Packing is about their packed word.
-- - Gui/ is src/CustomerPrintClientGui, as far as it keeps state: JobsPage and PendingJob are
--   JobsPage/PageJobsList.cpp and CtrlPendingJob.cpp, MainWindow is the view ports, the check for
--   updates and the closing of MainWindow.cpp, and PreviewPages the pages that show in
--   PrintPage/CtrlPrintPreviewCanvas.cpp. JobsMap, JobsContents, JobsWindows, JobsAligned,
--   JobsShown, JobsFault, JobsItems,
--   JobsLayout, Decisions and PreviewPages prove.
--
-- How they interact: the processor calls the cloud client, whose requests go to the HTTP client;
-- Jobs keeps those requests as values of Request, and Cloud.Requests.async_job posts each. The core
-- manager calls the cloud client, makes offices of what it finds, and stores what was selected in the
-- configuration and who is logged in in the credentials cache; its start of printing gives what the
-- processor takes.
--
-- The JSON library is a parameter, in two views: Cloud.Json.JsonLib for texts and requests, and
-- Core.Json.JsonObject, with the laws of reading back, for objects in which no
-- key waits for its value; storing under an empty key gives no such object and has no law. So are
-- the UTF-8 conversion, the casts of numbers and encryption, collected for the core manager in Manager.State.Outside,
-- and what the PDF library makes of a file (Manager.Printing.Opened).
-- Numbers are natural; a size_t is written modulo 2 ^ 64. Reading loops are structural recursions
-- on the buffer, but for the loop that reads the credentials file in blocks; its fuel is one more
-- than the length of what it reads, which a lemma shows to be enough. A callback is one step, of
-- the processor and of the core manager: the mutexes of the code make the shared parts of two
-- callbacks exclusive, and what they read of each other is the registry of pending jobs. An id of a
-- request is the time in seconds at which it was made, so two requests can share one.
--
-- Not modelled: the other windows of the user interface, the drawing of pages, the text of the
-- configuration file, the paths of the files, and Close of the clients; the
-- destructors, and the exceptions that a callback itself would throw.
pub mod Prelude
pub mod Core
pub mod Printing
pub mod Networking
pub mod Jobs
pub mod Cloud
pub mod Offices
pub mod Manager
pub mod Gui
